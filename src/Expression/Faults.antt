-- ===== src/Expression/Faults.antt =====
-- Where the operators of an expression are refused, and where they are undefined behaviour.
use groff.Prelude.{
  ◌&&◌, Bool-cases, inl, inr, rem, quot, ◌≡◌, refl, ◌↔◌, ℤ, pos, negsuc, arith, eq_ℤ, ◌≢◌, ◌+ℤ◌,
  ◌-ℤ◌, ◌*ℤ◌, false,
}
use groff.Int32.{int_min, IsInt, in_range, IsInt→in_range, quot-IsInt}
use groff.Expression.Input.{Input, rejected, undefined}
use groff.Expression.Operators.{Operator, plus, minus, divide, times, modulo, apply_operator}
use groff.Expression.Meaning.{fitted, of_division, meaning, apply_operator-meaning}

abbrev pub IsDivision : Operator → Type 0
IsDivision divide = Unit
IsDivision modulo = Unit
IsDivision _ = ⊥

fitted-defined : (z : ℤ) (i : Input) → fitted z i ≢ undefined
fitted-defined z i = ground arith

-- The quotient of an `int` by one that is not zero fits, but for that of INT_MIN by -1.
too_large : (a b : ℤ) → IsInt a → in_range (quot a b) ≡ false → (a ≡ int_min) × (b ≡ negsuc 0)
too_large a b ha over = elim (Bool-cases (eq_ℤ a int_min && eq_ℤ b (negsuc 0))) [
  | inl both ↦ ground arith
  | inr other ↦ absurd (ground (arith, IsInt→in_range (quot a b) (quot-IsInt a b other ha)))
]

of_division-undefined :
    (a b r : ℤ) (i : Input)
    → IsInt a
    → (of_division a b r i ≡ undefined) ↔ ((a ≡ int_min) × (b ≡ negsuc 0))
unfolding quot
of_division-undefined a b r i ha = (to, from)
  where
    to : of_division a b r i ≡ undefined → (a ≡ int_min) × (b ≡ negsuc 0)
    to e = elim (Bool-cases (eq_ℤ b (pos 0))) [
      | inl zero_divisor ↦ absurd (ground arith)
      | inr nonzero ↦ elim (Bool-cases (in_range (quot a b))) [
        | inl fits ↦ absurd (ground arith)
        | inr over ↦ too_large a b ha over
      ]
    ]

    from : (a ≡ int_min) × (b ≡ negsuc 0) → of_division a b r i ≡ undefined
    from (e, e') = rw (e, e') refl

of_division-refused : (a b r : ℤ) (i : Input) → b ≡ pos 0 → of_division a b r i ≡ rejected i
of_division-refused a b r i e = rw e refl

undefined-meaning :
    (op : Operator) (a b : ℤ) (i : Input)
    → IsInt a
    → ((meaning op a b i ≡ undefined) ↔ (IsDivision op × (a ≡ int_min) × (b ≡ negsuc 0)))
      × (IsDivision op → b ≡ pos 0 → meaning op a b i ≡ rejected i)
undefined-meaning plus a b i ha =
    ((λ e. absurd (fitted-defined (a +ℤ b) i e), λ (n, _, _). absurd n), λ n. absurd n)
undefined-meaning minus a b i ha =
    ((λ e. absurd (fitted-defined (a -ℤ b) i e), λ (n, _, _). absurd n), λ n. absurd n)
undefined-meaning times a b i ha =
    ((λ e. absurd (fitted-defined (a *ℤ b) i e), λ (n, _, _). absurd n), λ n. absurd n)
undefined-meaning divide a b i ha =
    let (to, from) = of_division-undefined a b (quot a b) i ha in
    (
      (λ e. (tt, (to e).0, (to e).1), λ (_, h, k). from (h, k)),
      λ _. of_division-refused a b (quot a b) i,
    )
undefined-meaning modulo a b i ha =
    let (to, from) = of_division-undefined a b (rem a b) i ha in
    (
      (λ e. (tt, (to e).0, (to e).1), λ (_, h, k). from (h, k)),
      λ _. of_division-refused a b (rem a b) i,
    )
undefined-meaning _ a b i ha = ((λ e. absurd (cc), λ (n, _, _). absurd n), λ n. absurd n)

-- Applying an operator to an `int` is undefined behaviour exactly where INT_MIN is divided by -1, or
-- reduced by it. A division or a reduction by 0 is refused.
pub apply_operator_undefined :
    (op : Operator) (a b : ℤ) (i : Input)
    → IsInt a
    → ((apply_operator op a b i ≡ undefined) ↔ (IsDivision op × (a ≡ int_min) × (b ≡ negsuc 0)))
      × (IsDivision op → b ≡ pos 0 → apply_operator op a b i ≡ rejected i)
apply_operator_undefined op a b i ha =
    rw (apply_operator-meaning op a b i) (undefined-meaning op a b i ha)
