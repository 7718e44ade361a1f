-- ===== src/Units.antt =====
-- src/roff/troff/hvunits.h and the end of src/roff/troff/number.cpp: lengths in device units.
-- `vunits` and `hunits` are one class twice, over `vresolution` and `hresolution`, which is the
-- argument `res` here. A value is the field `n`. `none` is undefined behaviour of C++.
pub mod Scale
pub mod Binary64
pub mod Rounding
mod Tests
use native.Mathlib.Nat.{div-le_self}
use groff.Prelude.{
  arith, leb, ◌<◌, ◌≡◌, ◌≤◌, ◌/◌, true, false, ℕ, ◌+◌, ◌-◌, ◌*◌, ◌/◌, ◌%◌, ◌≤◌, Bool, true, false,
  if◌then◌else◌, ◌==◌, ltb_ℤ, leb_ℤ, eq_ℤ, ℤ, pos, negsuc, neg, quot, Option, none, some, ◌+ℤ◌,
  ◌-ℤ◌,
}
use groff.Prelude.Maybe.{◌>>=◌}
use groff.Int32.{
  int_max, int_min, in_range, wrap, Checked, ckd_add, ckd_sub, ckd_mul, int_div, IsInt,
}

-- `-x` on `int`.
unfoldable pub negate_int : ℤ → Option ℤ
negate_int x = if eq_ℤ x int_min then none else some (neg x)

-- `a + b` on `int` with no check.
unfoldable pub plain : ℤ → Option ℤ
plain z = if in_range z then some z else none

-- The two branches of the constructor, for a negative length and for any other.
unfoldable pub from_negative : ℕ → ℤ → Option ℤ
from_negative res x = do
  m ← negate_int x
  let sum = ckd_add m (pos (res / 2 - 1))
  n ← negate_int sum.wrapped
  some (quot (if sum.overflowed then int_min else n) (pos res))

unfoldable pub from_positive : ℕ → ℤ → Option ℤ
from_positive res x =
    let sum = ckd_add x (pos (res / 2 - 1)) in
    some (quot (if sum.overflowed then pos int_max else sum.wrapped) (pos res))

-- `vunits::vunits(units)`, `hunits::hunits(units)`, for a resolution of at least 2 or 1.
unfoldable pub from_units : ℕ → ℤ → Option ℤ
from_units res x =
    if res == 1
    then some x
    else if ltb_ℤ x (pos 0)
    then from_negative res x
    else from_positive res x

unfoldable pub to_units : ℕ → ℤ → ℤ
unfolding ckd_mul
to_units res n = (ckd_mul n (pos res)).wrapped

unfoldable pub is_zero : ℤ → Bool
is_zero n = eq_ℤ n (pos 0)

-- The operators. The checked ones keep the stored result, whatever they report.
unfoldable pub add : ℤ → ℤ → ℤ
unfolding ckd_add
add x y = (ckd_add x y).wrapped

unfoldable pub subtract : ℤ → ℤ → ℤ
unfolding ckd_sub
subtract x y = (ckd_sub x y).wrapped

unfoldable pub opposite : ℤ → ℤ
unfolding ckd_mul
opposite x = (ckd_mul x (negsuc 0)).wrapped

unfoldable pub multiply : ℤ → ℤ → ℤ
unfolding ckd_mul
multiply x n = (ckd_mul x n).wrapped

unfoldable pub divide : ℤ → ℤ → Option ℤ
unfolding int_div
divide x n = int_div x n

-- `operator +=` and `operator -=` add and subtract with no check.
unfoldable pub add_assign : ℤ → ℤ → Option ℤ
unfolding plain
add_assign n x = plain (n +ℤ x)

unfoldable pub subtract_assign : ℤ → ℤ → Option ℤ
unfolding plain
subtract_assign n x = plain (n -ℤ x)

pub divide-pos : (d n : ℕ) → d ≤ int_max → 0 < n → divide (pos d) (pos n) ≡ some (pos (d / n))
unfolding divide int_div quot
divide-pos d n le h =
    let fits : leb (d / n) int_max ≡ true = ground (arith, div-le_self d n) in
    let nonzero : eq_ℤ (pos n) (pos 0) ≡ false = ground arith in rw (nonzero, fits)
