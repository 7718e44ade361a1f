-- ===== src/Expression/Tests.antt =====
-- Runs of the expression reader on small inputs.
use groff.Prelude.{
  ◌-◌, ℕ, ◌*◌, ◌≡◌, refl, List, [], ◌∷◌, codes, ℤ, pos, negsuc, quot, minus, false, ◌*ℤ◌, ◌+ℤ◌,
  ◌-ℤ◌, neg, if◌then◌else◌, ◌==◌, rem,
}
use groff.Int32.{ckd_add, ckd_sub, ckd_mul, int_div, int_mod}
use groff.Units.{from_units, to_units, is_zero, from_negative, from_positive, negate_int}
use groff.Units.Scale.{scale, saturate, product_fits, muldiv}
use groff.Units.Binary64.{binary64, product64, quotient64, nearest_integer, spacing}
use groff.Expression.Input.{
  char, space, newline, Env, Input, eof, tok, Outcome, accepted, undefined, skip_spaces,
}
use groff.Expression.Number.{
  Device, add_digit, read_signs, read_digits, has_room, add_decimal, read_fraction, is_scaling_unit,
  choose_unit, shrink, scale_asserting, em_units, apply_unit,
}
use groff.Expression.Operators.{read_operator, checked_value, divided, apply_operator}
use groff.Expression.Reader.{
  negate_if, finish_unit, read_point, whole_number, from_option, finish_number, from_position,
  close_paren, open_paren, is_operator_only, term_body, loop_round, loop_body, read_term,
  read_expression, read_loop, read_measurement,
}

-- A PostScript device.
abbrev pub ps : Device
ps = record {
  units_per_inch = 72000;
  hresolution = 1;
  vresolution = 1;
  sizescale = 1000;
  doubles = binary64;
}

abbrev pub ten_point : Env
ten_point = record {
  size = pos 10000;
  vertical_spacing = pos 12000;
  input_line_position = pos 0;
  vertical_position = pos 144000;
}

abbrev pub typed : List ℕ → Input
typed [] = tok newline ten_point (eof ten_point)
typed (c ∷ s) = tok (if c == b' ' then space else char c) ten_point (typed s)

run : ℕ → List ℕ → Outcome ℤ
unfolding read_measurement read_expression read_term read_loop loop_body loop_round term_body
    is_operator_only open_paren close_paren from_position finish_number finish_unit read_point
    whole_number from_option negate_if apply_operator divided checked_value read_operator apply_unit
    em_units scale_asserting shrink choose_unit is_scaling_unit read_fraction add_decimal has_room
    read_digits add_digit read_signs skip_spaces scale saturate product_fits muldiv product64
    quotient64 nearest_integer spacing from_units to_units is_zero from_negative from_positive
    negate_int ckd_add ckd_sub ckd_mul int_div int_mod quot rem ◌+ℤ◌ ◌-ℤ◌ ◌*ℤ◌ neg minus
run unit s = read_measurement ps unit false (typed s)

left_to_right : run b'u' (codes "2+3*4") ≡ accepted (pos 20) (typed [])
unfolding run
left_to_right = refl

inches : run b'u' (codes "(1.5i - 2u)*-1") ≡ accepted (negsuc 107997) (typed [])
unfolding run
inches = refl

position : run b'v' (codes "|1i") ≡ accepted (negsuc 71999) (typed [])
unfolding run
position = refl

no_quotient : run b'u' (codes "0-2147483647-1/-1") ≡ undefined
unfolding run
no_quotient = refl

-- A product of two numbers of 31 bits is rounded, here to a multiple of 512.
rounded : product64 2147483647 2147483645 ≡ 2147483647 * 2147483645 - 3
unfolding product64 nearest_integer spacing
rounded = refl

large_scale : scale binary64 (pos 2147483647) 2147483645 2147483647 ≡ pos 2147483645
unfolding scale saturate product_fits muldiv product64 quotient64 nearest_integer spacing
large_scale = refl
