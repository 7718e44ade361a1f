-- ===== src/Expression/Reader.antt =====
-- `is_valid_term`, `is_valid_expression` and the readers of number.cpp that call them. The two call
-- one another; the bodies take the inner calls as arguments, and fuel ties the knot.
use groff.Prelude.{
  ℕ, zero, suc, ◌+◌, ◌*◌, Bool, true, false, ◌&&◌, ◌||◌, if◌then◌else◌, ◌==◌, Option, none, some, ℤ,
  pos, negsuc, not,
}
use groff.Int32.{int_max, ckd_sub, ckd_mul}
use groff.Units.{from_units, to_units, negate_int}
use groff.Expression.Input.{
  is_newline, Input, env, current, cur_ch, next, skip_spaces, size, csdigit, Outcome, accepted,
  rejected, undefined, starved, Reader, ◌>>=◌,
}
use groff.Expression.Number.{
  Device, Fraction, read_signs, read_digits, read_fraction, is_scaling_unit, choose_unit,
  apply_unit,
}
use groff.Expression.Operators.{read_operator, apply_operator, Operator}

-- `ckd_mul(u, *u, -1)` where the term is negative: the stored result stays.
unfoldable pub negate_if : Bool → ℤ → ℤ
negate_if is_negative u = if is_negative then (ckd_mul u (negsuc 0)).wrapped else u

unfoldable pub from_option : Option ℤ → Input → Outcome ℤ
from_option none i = undefined
from_option (some u) i = accepted u i

module _ (dev : Device) where
  -- From the decimal point on: the fraction,
  unfoldable pub read_point : ℤ → Input → Fraction × Input
  read_point u i =
      let whole : Fraction = record { value = u; divisor = 1 } in
      if cur_ch i == b'.' then read_fraction whole (next i) else (whole, i)

  -- the unit, and the sign.
  unfoldable pub finish_unit : ℕ → Bool → Fraction → Input → Outcome ℤ
  finish_unit scaling_unit is_negative s j =
      let c = cur_ch j in
      let do_next = not (c == 0) && is_scaling_unit c in
      let si = if do_next then choose_unit scaling_unit c else scaling_unit in
      from_option (apply_unit dev (env j) si s.value s.divisor) j >>= λ v k.
      accepted (negate_if is_negative v) (if do_next then next k else k)

  unfoldable pub finish_number : ℕ → Bool → ℤ → Input → Outcome ℤ
  finish_number scaling_unit is_negative u i =
      let (s, j) = read_point u i in finish_unit scaling_unit is_negative s j

  -- The case of `|`, behind the inner term.
  unfoldable pub from_position : ℕ → Bool → ℤ → Input → Outcome ℤ
  from_position scaling_unit is_negative u i =
      let position =
        (if scaling_unit == b'v'
          then to_units dev.vresolution (env i).vertical_position
          else to_units dev.hresolution (env i).input_line_position) in
      let d = ckd_sub u position in
      let t = if d.overflowed then pos int_max else d.wrapped in
      from_option (if is_negative then negate_int t else some t) i

  -- The case of `(`, behind the inner expression.
  unfoldable pub close_paren : Bool → Bool → ℤ → Input → Outcome ℤ
  close_paren is_mandatory is_negative u i =
      let j = skip_spaces i in
      if cur_ch j == b')'
      then accepted (negate_if is_negative u) (next j)
      else if is_mandatory
      then rejected j
      else accepted (negate_if is_negative u) j

  -- The case of `(`: `i` is behind it, and `inner` reads an expression in a given unit.
  unfoldable pub open_paren : ℕ → Bool → Bool → (ℕ → Reader ℤ) → Reader ℤ
  open_paren scaling_unit is_mandatory is_negative inner i =
      let c = cur_ch i in
      if c == b')'
      then (if is_mandatory then rejected i else accepted (pos 0) (next i))
      else if not (c == 0) && is_scaling_unit c
      then (if cur_ch (next i) == b';'
          then inner c (next (next i)) >>= close_paren is_mandatory is_negative
          else rejected (next i))
      else if c == b';'
      then inner 0 (next i) >>= close_paren is_mandatory is_negative
      else inner scaling_unit i >>= close_paren is_mandatory is_negative

  -- The operators that may not begin a term: / * % : & > < =
  unfoldable pub is_operator_only : ℕ → Bool
  is_operator_only c =
      c == b'/'
      || c == b'*'
      || c == b'%'
      || c == b':'
      || c == b'&'
      || c == b'>'
      || c == b'<'
      || c == b'='

  -- The case of a digit.
  unfoldable pub whole_number : ℕ → Bool → Reader ℤ
  whole_number scaling_unit is_negative i =
      let (u, j) = read_digits (record { value = pos 0; is_overflowing = false }) i in
      finish_number scaling_unit is_negative u j

  -- The switch of `is_valid_term`; `again` and `inner` are its recursive calls.
  unfoldable pub term_body : ℕ → Bool → Reader ℤ → (ℕ → Reader ℤ) → Bool → Reader ℤ
  term_body scaling_unit is_mandatory again inner is_negative i =
      let c = cur_ch i in
      if c == b'|'
      then again (next i) >>= from_position scaling_unit is_negative
      else if c == b'('
      then open_paren scaling_unit is_mandatory is_negative inner (next i)
      else if c == b'.'
      then finish_number scaling_unit is_negative (pos 0) i
      else if csdigit c
      then (let (u, j) = read_digits (record { value = pos 0; is_overflowing = false }) i in
          finish_number scaling_unit is_negative u j)
      else if is_operator_only c
      then (if is_mandatory then rejected i else accepted (pos 0) i)
      else rejected i

  -- One round of the loop of `is_valid_expression`, by what was read as an operator at `j`: `operand`
  -- reads a term, `more` goes on.
  unfoldable pub loop_round :
      Reader ℤ → (ℤ → Reader ℤ) → ℤ → Input → Option (Operator × Input) → Outcome ℤ
  loop_round operand more u j none = accepted u j
  loop_round operand more u j (some (op, k)) =
      operand k >>= λ u2 m. apply_operator op u u2 m >>= more

  unfoldable pub loop_body : Bool → Reader ℤ → (ℤ → Reader ℤ) → ℤ → Reader ℤ
  unfolding loop_round
  loop_body is_parenthesized operand more u i =
      let j = if is_parenthesized then skip_spaces i else i in
      loop_round operand more u j (read_operator j)

  unfoldable mutual
    pub read_term : ℕ → ℕ → Bool → Bool → Reader ℤ
    read_term zero unit paren mandatory i = starved
    read_term (suc f) unit paren mandatory i =
        read_signs paren false i
        >>= term_body unit mandatory (read_term f unit paren mandatory)
            (λ si. read_expression f si true mandatory)

    pub read_expression : ℕ → ℕ → Bool → Bool → Reader ℤ
    read_expression zero unit paren mandatory i = starved
    read_expression (suc f) unit paren mandatory i =
        read_term f unit paren mandatory i >>= read_loop f unit paren mandatory

    pub read_loop : ℕ → ℕ → Bool → Bool → ℤ → Reader ℤ
    read_loop zero unit paren mandatory u i = starved
    read_loop (suc f) unit paren mandatory u i =
        loop_body paren (read_term f unit paren mandatory) (read_loop f unit paren mandatory) u i

  -- Each call of the three functions is behind a token more, or one call further in.
  abbrev pub fuel : Input → ℕ
  fuel i = 2 * size i + 2

  -- `is_valid_expression_start`, then an expression that is not in parentheses.
  unfoldable pub read_measurement : ℕ → Bool → Reader ℤ
  read_measurement unit mandatory i =
      let j = skip_spaces i in
      if is_newline (current j) then rejected j else read_expression (fuel j) unit false mandatory j

  unfoldable pub read_integer : Reader ℤ
  read_integer i = read_measurement 0 false i

  -- `read_vunits` and `read_hunits`, which convert what they read by the resolution `res`.
  unfoldable pub read_units : ℕ → ℕ → Reader ℤ
  read_units res unit i = read_measurement unit false i >>= λ x j. from_option (from_units res x) j
