-- ===== src/Units/Rounding.antt =====
-- What the conversion between basic units and device units keeps.
use native.Mathlib.Nat.{
  mul-one, add-mul-div_left, add_comm, div-add-mod, div-eq_of_lt, mod-lt, mul_comm,
}
use groff.Prelude.{
  ◌∙◌, sym, ap, ℕ, zero, suc, ◌+◌, ◌-◌, ◌*◌, ◌/◌, ◌%◌, ◌≤◌, ◌<◌, ◌≡◌, false, arith, ℤ, pos, negsuc,
  pos_part, neg_part, ◌+ℤ◌, ◌*ℤ◌, neg, minus, quot, some, minus-*ℤ, minus-quot, minus_parts,
}
use groff.Int32.{int_max, ckd_add, wrap_self}
use groff.Units.{from_units, from_positive, from_negative, negate_int, to_units}

-- The device units nearest to a magnitude `m`, with halves towards zero.
abbrev nearest : ℕ → ℕ → ℕ
nearest res m = (m + (res / 2 - 1)) / res

nearest_bounds :
    (res m : ℕ)
    → 2 ≤ res
    → (res * nearest res m ≤ m + (res / 2 - 1)) × (m ≤ res * nearest res m + (res + 1) / 2)
nearest_bounds res m h =
    let small : (m + (res / 2 - 1)) % res < res = mod-lt (m + (res / 2 - 1)) (omega arith) in
    omega (arith, div-add-mod (m + (res / 2 - 1)) res)

ckd_add-pos :
    (m c : ℕ)
    → m + c ≤ int_max
    → ckd_add (pos m) (pos c) ≡ record { wrapped = pos (m + c); overflowed = false }
unfolding ckd_add ◌+ℤ◌
ckd_add-pos m c h = ground arith

from_positive_lem :
    (res m : ℕ)
    → m + (res / 2 - 1) ≤ int_max
    → from_positive res (pos m) ≡ some (pos (nearest res m))
unfolding from_positive quot
from_positive_lem res m h = ground (arith, ckd_add-pos m (res / 2 - 1) h)

negate_int-pos : (m : ℕ) → negate_int (pos m) ≡ some (minus m)
unfolding negate_int neg
negate_int-pos m = ground arith

negate_int-negsuc : (m : ℕ) → suc m ≤ int_max → negate_int (negsuc m) ≡ some (pos (suc m))
unfolding negate_int neg
negate_int-negsuc m h = ground arith

from_negative_lem :
    (res m : ℕ)
    → suc m + (res / 2 - 1) ≤ int_max
    → from_negative res (negsuc m) ≡ some (minus (nearest res (suc m)))
unfolding from_negative
from_negative_lem res m h = simp (
  negate_int-negsuc m (omega arith),
  ckd_add-pos (suc m) (res / 2 - 1) h,
  negate_int-pos,
  minus-quot,
)

to_units-pos : (res q : ℕ) → res * q ≤ int_max → to_units res (pos q) ≡ pos (res * q)
unfolding to_units ◌*ℤ◌
to_units-pos res q h = ground (arith, mul_comm q res)

pub to_units-minus : (res q : ℕ) → res * q ≤ int_max → to_units res (minus q) ≡ minus (res * q)
unfolding to_units
to_units-minus res q h =
    rw (minus-*ℤ, mul_comm q res)
      (wrap_self (minus (res * q)) (omega (arith, minus_parts (res * q))))

-- `t` is within `d` of `x`.
abbrev pub IsWithin : ℕ → ℤ → ℤ → Type 0
IsWithin d t x =
    (pos_part t + neg_part x ≤ pos_part x + neg_part t + d)
    × (pos_part x + neg_part t ≤ pos_part t + neg_part x + d)

-- A length in basic units that is converted to device units and back moves by at most half a device
-- unit, rounded up, if its magnitude leaves room for the rounding term.
pub to_units-from_units :
    (res : ℕ) (x : ℤ)
    → 2 ≤ res
    → pos_part x + neg_part x + (res / 2 - 1) ≤ int_max
    → (q : ℤ) × (from_units res x ≡ some q) × IsWithin ((res + 1) / 2) (to_units res q) x
unfolding from_units
to_units-from_units res (pos m) two h =
    let b = nearest_bounds res m two in
    (
      pos (nearest res m),
      ground (arith, from_positive_lem res m (omega arith)),
      ground (arith, b, to_units-pos res (nearest res m)),
    )
to_units-from_units res (negsuc m) two h =
    let b = nearest_bounds res (suc m) two in
    (
      minus (nearest res (suc m)),
      ground (arith, from_negative_lem res m (omega arith)),
      rw (to_units-minus res (nearest res (suc m)) (omega arith))
          (omega (arith, minus_parts (res * nearest res (suc m)))),
    )

nearest-multiple : (res m : ℕ) → 2 ≤ res → nearest res (res * m) ≡ m
nearest-multiple res m h = rw (add_comm (res * m) (res / 2 - 1)) (
    add-mul-div_left (res / 2 - 1) m (omega arith)
    ∙ rw (div-eq_of_lt {n = res / 2 - 1} {m = res} (omega arith)) (omega arith))

from_units-pos :
    (res m : ℕ)
    → 2 ≤ res
    → m + (res / 2 - 1) ≤ int_max
    → from_units res (pos m) ≡ some (pos (nearest res m))
unfolding from_units
from_units-pos res m two h = ground (arith, from_positive_lem res m h)

from_units-minus :
    (res m : ℕ)
    → 2 ≤ res
    → m + (res / 2 - 1) ≤ int_max
    → from_units res (minus m) ≡ some (minus (nearest res m))
unfolding from_units minus
from_units-minus res zero two h =
    let z : nearest res 0 ≡ 0 = div-eq_of_lt {n = 0 + (res / 2 - 1)} {m = res} (omega arith) in
    from_units-pos res 0 two h ∙ ap (λ k. some (pos k)) z ∙ ap (λ k. some (minus k)) (sym z)
from_units-minus res (suc m) two h = ground (arith, from_negative_lem res m h)

pub from_units_multiple :
    (res k : ℕ) → 1 ≤ res → suc k * res ≤ int_max → from_units res (pos (k * res)) ≡ some (pos k)
unfolding from_units
from_units_multiple zero k one h = absurd (omega arith)
from_units_multiple (suc zero) k one h = rw (mul-one k)
from_units_multiple (suc (suc r)) k one h = rw (mul_comm k (suc (suc r))) (
    from_units-pos (suc (suc r)) (suc (suc r) * k) (omega arith) (omega arith)
    ∙ ap (λ n. some (pos n)) (nearest-multiple (suc (suc r)) k (omega arith)))

-- A length that is a whole number of device units is converted back to itself.
pub from_units-to_units :
    (res : ℕ) (q : ℤ)
    → 2 ≤ res
    → res * (pos_part q + neg_part q) + (res / 2 - 1) ≤ int_max
    → from_units res (to_units res q) ≡ some q
unfolding minus
from_units-to_units res (pos m) two h =
    ap (from_units res) (to_units-pos res m (omega arith))
    ∙ from_units-pos res (res * m) two (omega arith)
    ∙ ap (λ k. some (pos k)) (nearest-multiple res m two)
from_units-to_units res (negsuc m) two h =
    ap (from_units res) (to_units-minus res (suc m) (omega arith))
    ∙ from_units-minus res (res * suc m) two (omega arith)
    ∙ ap (λ k. some (minus k)) (nearest-multiple res (suc m) two)
