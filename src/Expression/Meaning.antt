-- ===== src/Expression/Meaning.antt =====
-- What the operators of an expression mean, on numbers without a bound: the code computes with `int`.
use groff.Prelude.{
  Bool, not, ◌&&◌, ◌||◌, if◌then◌else◌, ltb_ℤ, leb_ℤ, eq_ℤ, Bool-cases, inl, inr, none, some, ℤ,
  pos, ◌+ℤ◌, ◌-ℤ◌, ◌*ℤ◌, quot, rem, ◌≡◌, refl, arith,
}
use groff.Int32.{
  in_range, in_range→IsInt, wrap_self, checked, ckd_add, ckd_sub, ckd_mul, int_div, int_mod,
}
use groff.Expression.Input.{Input, Outcome, accepted, rejected, undefined}
use groff.Expression.Operators.{
  Operator, plus, minus, divide, times, modulo, or, and, greater, greater_or_equal, maximum, less,
  less_or_equal, minimum, equal, apply_operator, checked_value, divided,
}

-- A sum, a difference or a product is refused unless it is an `int`.
abbrev pub fitted : ℤ → Input → Outcome ℤ
fitted z i = if in_range z then accepted z i else rejected i

-- The result of a division by zero is refused, and it is undefined where the quotient is not an `int`.
abbrev pub of_division : ℤ → ℤ → ℤ → Input → Outcome ℤ
of_division a b r i =
    if eq_ℤ b (pos 0) then rejected i else if in_range (quot a b) then accepted r i else undefined

abbrev pub is_true : ℤ → Bool
is_true a = not (leb_ℤ a (pos 0))

-- A comparison or a connective is worth 1 where it holds, and else 0.
abbrev pub meaning : Operator → ℤ → ℤ → Input → Outcome ℤ
meaning plus a b i = fitted (a +ℤ b) i
meaning minus a b i = fitted (a -ℤ b) i
meaning times a b i = fitted (a *ℤ b) i
meaning divide a b i = of_division a b (quot a b) i
meaning modulo a b i = of_division a b (rem a b) i
meaning or a b i = accepted (if is_true a || is_true b then pos 1 else pos 0) i
meaning and a b i = accepted (if is_true a && is_true b then pos 1 else pos 0) i
meaning greater a b i = accepted (if leb_ℤ a b then pos 0 else pos 1) i
meaning greater_or_equal a b i = accepted (if ltb_ℤ a b then pos 0 else pos 1) i
meaning less a b i = accepted (if leb_ℤ b a then pos 0 else pos 1) i
meaning less_or_equal a b i = accepted (if ltb_ℤ b a then pos 0 else pos 1) i
meaning maximum a b i = accepted (if leb_ℤ b a then a else b) i
meaning minimum a b i = accepted (if leb_ℤ a b then a else b) i
meaning equal a b i = accepted (if leb_ℤ a b && leb_ℤ b a then pos 1 else pos 0) i

checked_value-fitted : (z : ℤ) (i : Input) → checked_value (checked z) i ≡ fitted z i
unfolding checked_value
checked_value-fitted z i = elim (Bool-cases (in_range z)) [
  | inl fits ↦ let same = wrap_self z (in_range→IsInt z fits) in rw (same, fits) refl
  | inr over ↦ rw over refl
]

divided_lem :
    (a b r : ℤ) (i : Input)
    → divided (if eq_ℤ b (pos 0) || not (in_range (quot a b)) then none else some r) b i
      ≡ of_division a b r i
unfolding divided
divided_lem a b r i = elim (Bool-cases (eq_ℤ b (pos 0))) [
  | inl zero_divisor ↦ ground arith
  | inr nonzero ↦ elim (Bool-cases (in_range (quot a b))) [
    | inl fits ↦ ground arith
    | inr over ↦ ground arith
  ]
]

pub apply_operator-meaning :
    (op : Operator) (a b : ℤ) (i : Input) → apply_operator op a b i ≡ meaning op a b i
unfolding apply_operator ckd_add ckd_sub ckd_mul int_div int_mod
apply_operator-meaning plus a b i = checked_value-fitted (a +ℤ b) i
apply_operator-meaning minus a b i = checked_value-fitted (a -ℤ b) i
apply_operator-meaning times a b i = checked_value-fitted (a *ℤ b) i
apply_operator-meaning divide a b i = divided_lem a b (quot a b) i
apply_operator-meaning modulo a b i = divided_lem a b (rem a b) i
apply_operator-meaning or a b i = ground arith
apply_operator-meaning and a b i = ground arith
apply_operator-meaning greater a b i = ground arith
apply_operator-meaning greater_or_equal a b i = ground arith
apply_operator-meaning less a b i = ground arith
apply_operator-meaning less_or_equal a b i = ground arith
apply_operator-meaning maximum a b i = ground arith
apply_operator-meaning minimum a b i = ground arith
apply_operator-meaning equal a b i = ground arith
