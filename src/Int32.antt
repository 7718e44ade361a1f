-- ===== src/Int32.antt =====
-- C's `int` as the sources use it: 32 bits, two's complement. `ckd_add`, `ckd_sub` and `ckd_mul` are
-- those of <stdckdint.h>: they store the result reduced modulo 2^32 and tell whether it was reduced.
use native.Mathlib.Nat.{div-le_self, div-one, div-lt_self, mod-le}
use groff.Prelude.{
  zero, suc, ◌/◌, minus_parts, ℕ, ◌-◌, ◌%◌, ◌^◌, ◌≤◌, ◌<◌, ◌≡◌, Bool, true, false, not, leb,
  if◌then◌else◌, arith, ℤ, pos, negsuc, pos_part, neg_part, ◌+ℤ◌, ◌-ℤ◌, ◌*ℤ◌, quot, rem, Option,
  none, some, eq_ℤ, ◌&&◌, ◌||◌,
}

abbrev pub int_max : ℕ
int_max = 2 ^ 31 - 1

abbrev pub int_min : ℤ
int_min = negsuc int_max

abbrev pub IsInt : ℤ → Type 0
IsInt z = (pos_part z ≤ int_max) × (neg_part z ≤ 2 ^ 31)

abbrev pub in_range : ℤ → Bool
in_range (pos n) = leb n int_max
in_range (negsuc n) = leb n int_max

-- The value of a 32-bit pattern.
abbrev pub signed : ℕ → ℤ
signed r = if leb r int_max then pos r else negsuc (2 ^ 32 - 1 - r)

abbrev pub wrap : ℤ → ℤ
wrap (pos n) = signed (n % 2 ^ 32)
wrap (negsuc n) = signed (2 ^ 32 - 1 - n % 2 ^ 32)

pub wrap-IsInt : (z : ℤ) → IsInt (wrap z)
wrap-IsInt (pos n) = ground arith
wrap-IsInt (negsuc n) = ground arith

pub wrap_self : (z : ℤ) → IsInt z → wrap z ≡ z
wrap_self (pos n) h = ground arith
wrap_self (negsuc n) h = ground arith

pub in_range→IsInt : (z : ℤ) → in_range z ≡ true → IsInt z
in_range→IsInt (pos n) h = ground arith
in_range→IsInt (negsuc n) h = ground arith

pub IsInt→in_range : (z : ℤ) → IsInt z → in_range z ≡ true
IsInt→in_range (pos n) h = ground arith
IsInt→in_range (negsuc n) h = ground arith

-- A checked operation stores `wrapped` and reports `overflowed`.
pub record Checked : Type 0 where
  pub wrapped : ℤ
  pub overflowed : Bool

abbrev pub checked : ℤ → Checked
checked z = record { wrapped = wrap z; overflowed = not (in_range z) }

unfoldable pub ckd_add : ℤ → ℤ → Checked
ckd_add a b = checked (a +ℤ b)

unfoldable pub ckd_sub : ℤ → ℤ → Checked
ckd_sub a b = checked (a -ℤ b)

unfoldable pub ckd_mul : ℤ → ℤ → Checked
ckd_mul a b = checked (a *ℤ b)

-- `a / b` and `a % b` on `int`: both operators are undefined behaviour, which is `none`, where `b` is
-- zero or the quotient is not an `int`.
abbrev is_division_undefined : ℤ → ℤ → Bool
is_division_undefined a b = eq_ℤ b (pos 0) || not (in_range (quot a b))

unfoldable pub int_div : ℤ → ℤ → Option ℤ
int_div a b = if is_division_undefined a b then none else some (quot a b)

unfoldable pub int_mod : ℤ → ℤ → Option ℤ
int_mod a b = if is_division_undefined a b then none else some (rem a b)

-- Where the exact result fits, it is what is stored, and nothing is reported.
pub checked_exact : (z : ℤ) → IsInt z → checked z ≡ record { wrapped = z; overflowed = false }
checked_exact z h = rw (wrap_self z h, IsInt→in_range z h)

pub ckd_add-IsInt : (a b : ℤ) → IsInt (ckd_add a b).wrapped
unfolding ckd_add
ckd_add-IsInt a b = wrap-IsInt (a +ℤ b)

pub ckd_sub-IsInt : (a b : ℤ) → IsInt (ckd_sub a b).wrapped
unfolding ckd_sub
ckd_sub-IsInt a b = wrap-IsInt (a -ℤ b)

pub ckd_mul-IsInt : (a b : ℤ) → IsInt (ckd_mul a b).wrapped
unfolding ckd_mul
ckd_mul-IsInt a b = wrap-IsInt (a *ℤ b)

pub quot-IsInt :
    (a b : ℤ) → (eq_ℤ a int_min && eq_ℤ b (negsuc 0)) ≡ false → IsInt a → IsInt (quot a b)
unfolding quot
quot-IsInt (pos a) (pos b) e h = omega (arith, div-le_self a b)
quot-IsInt (pos a) (negsuc b) e h = omega (arith, div-le_self a (suc b), minus_parts (a / suc b))
quot-IsInt (negsuc a) (pos b) e h = omega (arith, div-le_self (suc a) b, minus_parts (suc a / b))
quot-IsInt (negsuc a) (negsuc zero) e h = ground (arith, div-one (suc a))
quot-IsInt (negsuc a) (negsuc (suc b)) e h =
    let smaller : suc a / suc (suc b) < suc a = div-lt_self (omega arith) (omega arith) in
    omega arith

rem-IsInt : (a b : ℤ) → IsInt a → IsInt (rem a b)
unfolding rem
rem-IsInt (pos a) (pos b) h = omega (arith, mod-le a b)
rem-IsInt (pos a) (negsuc b) h = omega (arith, mod-le a (suc b))
rem-IsInt (negsuc a) (pos b) h = omega (arith, mod-le (suc a) b, minus_parts (suc a % b))
rem-IsInt (negsuc a) (negsuc b) h =
    omega (arith, mod-le (suc a) (suc b), minus_parts (suc a % suc b))

pub int_div-IsInt : (a b : ℤ) {q : ℤ} → IsInt a → int_div a b ≡ some q → IsInt q
unfolding int_div
int_div-IsInt a b h e = ground (arith, in_range→IsInt (quot a b))

pub int_mod-IsInt : (a b : ℤ) {r : ℤ} → IsInt a → int_mod a b ≡ some r → IsInt r
unfolding int_mod
int_mod-IsInt a b h e = ground (arith, rem-IsInt a b)
