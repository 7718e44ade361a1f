-- ===== src/Expression/Steps.antt =====
-- The steps of `is_valid_term` and `is_valid_expression` keep their promise when the readers that they
-- call do.
use groff.Prelude.{
  ℕ, ◌-◌, ◌≤◌, ◌<◌, ◌≡◌, refl, Bool, true, false, ◌&&◌, if◌then◌else◌, ◌==◌, Bool-cases, inl, inr,
  Option, none, some, ℤ, eq_ℤ, neg_parts, pos, negsuc, arith, not,
}
use groff.Int32.{
  int_max, int_min, IsInt, Checked, ckd_sub, ckd_add-IsInt, ckd_sub-IsInt, ckd_mul-IsInt,
  int_div-IsInt, int_mod-IsInt,
}
use groff.Units.{to_units, negate_int}
use groff.Expression.Input.{
  Input, env, cur_ch, next, skip_spaces, size, Outcome, accepted, rejected, Reader, ◌>>=◌, csdigit,
}
use groff.Expression.Number.{Device, Digits, Fraction, read_digits, is_scaling_unit}
use groff.Expression.Operators.{
  Operator, plus, minus, times, divide, modulo, maximum, minimum, truth, read_operator,
  apply_operator, checked_value, divided,
}
use groff.Expression.Reader.{
  negate_if, from_option, finish_unit, read_point, finish_number, whole_number, from_position,
  close_paren, open_paren, is_operator_only, term_body, loop_round, loop_body,
}
use groff.Expression.Bounds.{
  Post, Post-bind, Post-weaken, Post-if, Post-test, size-skip_spaces, size-next, size-next-lt,
  Given, read_digits-IsInt, read_fraction-IsInt, apply_unit-Given,
}

abbrev pub Safe : ℕ → Outcome ℤ → Type 0
Safe = Post IsInt

pub negate_if-IsInt : (b : Bool) (u : ℤ) → IsInt u → IsInt (negate_if b u)
unfolding negate_if
negate_if-IsInt true u h = ckd_mul-IsInt u (negsuc 0)
negate_if-IsInt false u h = h

pub from_option-Safe : (o : Option ℤ) (i : Input) → Given o → Safe (size i) (from_option o i)
unfolding from_option
from_option-Safe none i g = tt
from_option-Safe (some u) i g = (g, omega arith)

negate_int-Given : (u : ℤ) → IsInt u → Given (negate_int u)
unfolding negate_int
negate_int-Given u h = elim (Bool-cases (eq_ℤ u int_min)) [
  | inl least ↦ rw least tt
  | inr other ↦ rw other (ground (arith, neg_parts u))
]

checked_value-Safe : (c : Checked) (i : Input) → IsInt c.wrapped → Safe (size i) (checked_value c i)
unfolding checked_value
checked_value-Safe c i h = Post-if IsInt _ c.overflowed _ _ (omega arith) (h, omega arith)

divided-Safe : (o : Option ℤ) (b : ℤ) (i : Input) → Given o → Safe (size i) (divided o b i)
unfolding divided
divided-Safe none b i g = Post-if IsInt _ (eq_ℤ b (pos 0)) _ _ (omega arith) tt
divided-Safe (some q) b i g = Post-if IsInt _ (eq_ℤ b (pos 0)) _ _ (omega arith) (g, omega arith)

truth-IsInt : (b : Bool) → IsInt (truth b)
truth-IsInt b = ground arith

pub Given-cases : (o : Option ℤ) → ((v : ℤ) → o ≡ some v → IsInt v) → Given o
Given-cases none h = tt
Given-cases (some v) h = h v refl

pub apply_operator-Safe :
    (op : Operator) (a b : ℤ) (i : Input)
    → IsInt a
    → IsInt b
    → Safe (size i) (apply_operator op a b i)
unfolding apply_operator
apply_operator-Safe plus a b i ha hb = checked_value-Safe _ i (ckd_add-IsInt a b)
apply_operator-Safe minus a b i ha hb = checked_value-Safe _ i (ckd_sub-IsInt a b)
apply_operator-Safe times a b i ha hb = checked_value-Safe _ i (ckd_mul-IsInt a b)
apply_operator-Safe divide a b i ha hb =
    divided-Safe _ b i (Given-cases _ (λ v. int_div-IsInt a b ha))
apply_operator-Safe modulo a b i ha hb =
    divided-Safe _ b i (Given-cases _ (λ v. int_mod-IsInt a b ha))
apply_operator-Safe maximum a b i ha hb = ground arith
apply_operator-Safe minimum a b i ha hb = ground arith
apply_operator-Safe _ a b i ha hb = (truth-IsInt _, omega arith)

-- An operator is at least one token.
pub read_operator-lt :
    (i : Input) {op : Operator} {k : Input} → read_operator i ≡ some (op, k) → size k < size i
unfolding read_operator
read_operator-lt i {op} {k} h = ground (arith, size-next-lt i, size-next (next i))

module _ (dev : Device) where
  read_point-IsInt :
      (u : ℤ) (i : Input)
      → IsInt u
      → IsInt (read_point dev u i).0.value × (size (read_point dev u i).1 ≤ size i)
  unfolding read_point
  read_point-IsInt u i h =
      let whole : Fraction = record { value = u; divisor = 1 } in
      elim (Bool-cases (cur_ch i == b'.')) [
        | inl point ↦ rw point (omega (arith, read_fraction-IsInt whole (next i) h, size-next i))
        | inr none_here ↦ rw none_here (h, omega arith)
      ]

  finish_unit-Safe :
      (unit : ℕ) (negative : Bool) (s : Fraction) (j : Input)
      → IsInt s.value
      → Safe (size j) (finish_unit dev unit negative s j)
  unfolding finish_unit
  finish_unit-Safe unit negative s j h =
      Post-bind IsInt IsInt (size j) _ _
        (from_option-Safe _ j (apply_unit-Given dev _ _ s.value s.divisor h))
        λ v k hv le. (negate_if-IsInt negative v hv, ground (arith, size-next k))

  pub finish_number-Safe :
      (unit : ℕ) (negative : Bool) (u : ℤ) (i : Input)
      → IsInt u
      → Safe (size i) (finish_number dev unit negative u i)
  unfolding finish_number
  finish_number-Safe unit negative u i h =
      let p = read_point-IsInt u i h in
      Post-weaken IsInt _ p.1
        (finish_unit-Safe unit negative (read_point dev u i).0 (read_point dev u i).1 p.0)

  pub whole_number-Safe :
      (unit : ℕ) (negative : Bool) (i : Input) → Safe (size i) (whole_number dev unit negative i)
  unfolding whole_number
  whole_number-Safe unit negative i =
      let start : Digits = record { value = pos 0; is_overflowing = false } in
      let p = read_digits-IsInt start i (omega arith) in
      Post-weaken IsInt _ p.1
        (finish_number-Safe unit negative (read_digits start i).0 (read_digits start i).1 p.0)

  pub from_position-Safe :
      (unit : ℕ) (negative : Bool) (u : ℤ) (i : Input)
      → Safe (size i) (from_position dev unit negative u i)
  unfolding from_position
  from_position-Safe unit negative u i =
      let position =
        (if unit == b'v'
          then to_units dev.vresolution (env i).vertical_position
          else to_units dev.hresolution (env i).input_line_position) in
      let d = ckd_sub u position in
      let t = if d.overflowed then pos int_max else d.wrapped in
      let fits : IsInt t = ground (arith, ckd_sub-IsInt u position) in
      from_option-Safe _ i (ground (arith, negate_int-Given t fits))

  close_paren-Safe :
      (mandatory negative : Bool) (u : ℤ) (i : Input)
      → IsInt u
      → Safe (size i) (close_paren dev mandatory negative u i)
  unfolding close_paren
  close_paren-Safe mandatory negative u i h =
      let j = skip_spaces i in
      let le = size-skip_spaces i in
      let value = negate_if-IsInt negative u h in
      Post-if IsInt _ (cur_ch j == b')') _ _ (value, omega (arith, size-next j))
        (Post-if IsInt _ mandatory _ _ (omega arith) (value, omega arith))

  -- `inner` reads from anywhere in the next `n` tokens.
  open_paren-Safe :
      (unit : ℕ) (mandatory negative : Bool) (inner : ℕ → Reader ℤ) (n : ℕ)
      → ((si : ℕ) (j : Input) → size j ≤ n → Safe n (inner si j))
      → (i : Input) → size i ≤ n
      → Safe n (open_paren dev unit mandatory negative inner i)
  unfolding open_paren
  open_paren-Safe unit mandatory negative inner n safe i h =
      let closed : (si : ℕ) (j : Input)
          → size j ≤ n
          → Safe n (inner si j >>= close_paren dev mandatory negative) =
        λ si j le.
          Post-bind IsInt IsInt n _ _ (safe si j le)
            (λ u k hu hk. Post-weaken IsInt _ hk (close_paren-Safe mandatory negative u k hu)) in
      let one = size-next i in
      let two = size-next (next i) in
      let c = cur_ch i in
      Post-if IsInt n (c == b')') _ _ (Post-if IsInt n mandatory _ _ h (omega arith, omega arith)) (
        Post-if IsInt n (not (c == 0) && is_scaling_unit c) _ _
          (Post-if IsInt n (cur_ch (next i) == b';') _ _ (closed c _ (omega arith)) (omega arith))
          (Post-if IsInt n (c == b';') _ _ (closed 0 _ (omega arith)) (closed unit i h)))

  pub term_body-Safe :
      (unit : ℕ) (mandatory : Bool) (again : Reader ℤ) (inner : ℕ → Reader ℤ) (negative : Bool)
      (n : ℕ)
      → ((j : Input) → size j < n → Safe n (again j))
      → ((si : ℕ) (j : Input) → size j < n → Safe (n - 1) (inner si j))
      → (i : Input) → size i ≤ n
      → Safe n (term_body dev unit mandatory again inner negative i)
  unfolding term_body from_position finish_number whole_number
  term_body-Safe unit mandatory again inner negative n safe_again safe_inner i h =
      let c = cur_ch i in
      Post-test IsInt n (c == b'|') _ _
        (λ bar.
          Post-bind IsInt IsInt n _ _ (safe_again (next i) (grind (arith, size-next-lt i)))
            (λ u k hu hk. Post-weaken IsInt _ hk (from_position-Safe unit negative u k)))
        (λ _.
          Post-test IsInt n (c == b'(') _ _
            (λ paren.
              let less : size (next i) < size i = size-next-lt i (ground arith) in
              Post-weaken IsInt {m = n - 1} _ (omega arith) (
                open_paren-Safe unit mandatory negative inner (n - 1)
                  (λ si j le. safe_inner si j (omega arith)) (next i) (omega arith)))
            (λ _.
              Post-if IsInt n (c == b'.') _ _
                (Post-weaken IsInt _ h (finish_number-Safe unit negative (pos 0) i (omega arith)))
                (Post-if IsInt n (csdigit c) _ _
                  (Post-weaken IsInt _ h (whole_number-Safe unit negative i))
                  (Post-if IsInt n (is_operator_only dev c) _ (rejected i)
                    (Post-if IsInt n mandatory (rejected i) (accepted (pos 0) i) h (omega arith, h))
                    h))))

  loop_round-Safe :
      (operand : Reader ℤ) (more : ℤ → Reader ℤ) (n : ℕ)
      → ((j : Input) → size j < n → Safe (n - 1) (operand j))
      → ((u : ℤ) (j : Input) → IsInt u → size j < n → Safe (n - 1) (more u j))
      → (u : ℤ) (j : Input) (o : Option (Operator × Input)) → IsInt u
      → size j ≤ n
      → ((op : Operator) (k : Input) → o ≡ some (op, k) → size k < size j)
      → Safe n (loop_round dev operand more u j o)
  unfolding loop_round
  loop_round-Safe operand more n safe_operand safe_more u j none hu le lt = (hu, le)
  loop_round-Safe operand more n safe_operand safe_more u j (some (op, k)) hu le lt =
      let less : size k < size j = lt op k refl in
      Post-weaken IsInt {m = n - 1} _ (omega arith) (
        Post-bind IsInt IsInt (n - 1) _ _ (safe_operand k (omega arith)) (λ u2 m hu2 hm.
          Post-bind IsInt IsInt (n - 1) _ _
            (Post-weaken IsInt _ hm (apply_operator-Safe op u u2 m hu hu2))
            (λ v l hv hl. safe_more v l hv (omega arith))))

  pub loop_body-Safe :
      (paren : Bool) (operand : Reader ℤ) (more : ℤ → Reader ℤ) (n : ℕ)
      → ((j : Input) → size j < n → Safe (n - 1) (operand j))
      → ((u : ℤ) (j : Input) → IsInt u → size j < n → Safe (n - 1) (more u j))
      → (u : ℤ) (i : Input) → IsInt u
      → size i ≤ n
      → Safe n (loop_body dev paren operand more u i)
  unfolding loop_body
  loop_body-Safe paren operand more n safe_operand safe_more u i hu h =
      let j = (if paren then skip_spaces i else i) in
      loop_round-Safe operand more n safe_operand safe_more u j (read_operator j) hu
        (ground (arith, size-skip_spaces i)) (λ op k. read_operator-lt j)
