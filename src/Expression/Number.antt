-- ===== src/Expression/Number.antt =====
-- The parts of `is_valid_term` that read signs, digits, a fraction and a scaling unit.
use groff.Prelude.{
  ℕ, zero, suc, ◌+◌, ◌-◌, ◌*◌, ◌/◌, Bool, true, false, not, ◌&&◌, ◌||◌, if◌then◌else◌, leb, ltb,
  ◌==◌, leb_ℤ, Option, none, some, ℤ, pos, negsuc, pos_part, quot,
}
use groff.Prelude.Maybe.{◌>>=◌}
use groff.Int32.{int_max, ckd_mul, ckd_add}
use groff.Units.{from_units, to_units, is_zero}
use groff.Units.Scale.{Doubles, scale}
use groff.Expression.Input.{
  ch, is_space, is_tab, Env, Input, eof, tok, csdigit, Outcome, accepted, rejected,
}

-- The device: its resolutions, the subdivisions of a point, and its `double` arithmetic.
pub record Device : Type 0 where
  pub units_per_inch : ℕ
  pub hresolution : ℕ
  pub vresolution : ℕ
  pub sizescale : ℕ
  pub doubles : Doubles

-- The loop over leading spaces and signs; the result is `is_negative`.
unfoldable pub read_signs : Bool → Bool → Input → Outcome Bool
read_signs paren is_negative (eof e) = accepted is_negative (eof e)
read_signs paren is_negative (tok t e i) =
    let rest = read_signs paren (if ch t == b'-' then not is_negative else is_negative) i in
    if (paren && is_space t) || ch t == b'+' || ch t == b'-'
    then rest
    else if is_tab t
    then rejected (tok t e i)
    else accepted is_negative (tok t e i)

-- One round of the loop over digits: both checked operations are made, and the old value is put back
-- if either overflows.
pub record Digits : Type 0 where
  pub value : ℤ
  pub is_overflowing : Bool

unfoldable pub add_digit : Digits → ℕ → Digits
add_digit s d =
    let m = ckd_mul s.value (pos 10) in
    let a = ckd_add m.wrapped (pos d) in
    if s.is_overflowing
    then s
    else if m.overflowed || a.overflowed
    then record { value = s.value; is_overflowing = true }
    else record { value = a.wrapped; is_overflowing = false }

unfoldable pub read_digits : Digits → Input → ℤ × Input
read_digits s (eof e) = (s.value, eof e)
read_digits s (tok t e i) =
    let rest = read_digits (add_digit s (ch t - b'0')) i in
    if csdigit (ch t) then rest else (s.value, tok t e i)

-- The digits behind the decimal point, while there is room for them and for a later factor of 254.
pub record Fraction : Type 0 where
  pub value : ℤ
  pub divisor : ℕ

unfoldable pub has_room : Fraction → Bool
has_room s = leb s.divisor (int_max / 2540) && leb_ℤ s.value (pos ((int_max - 9) / 10))

-- The value is not negative, so that its positive part is all of it.
unfoldable pub add_decimal : Fraction → ℕ → Fraction
add_decimal s d =
    if has_room s
    then record { value = pos (pos_part s.value * 10 + d); divisor = s.divisor * 10 }
    else s

unfoldable pub read_fraction : Fraction → Input → Fraction × Input
read_fraction s (eof e) = (s, eof e)
read_fraction s (tok t e i) =
    let rest = read_fraction (add_decimal s (ch t - b'0')) i in
    if csdigit (ch t) then rest else (s, tok t e i)

-- `valid_scaling_units.contains(c)`, for the units "icfPmnpuvMsz" and a `c` that is not 0.
unfoldable pub is_scaling_unit : ℕ → Bool
is_scaling_unit c =
    c == b'i'
    || c == b'c'
    || c == b'f'
    || c == b'P'
    || c == b'm'
    || c == b'n'
    || c == b'p'
    || c == b'u'
    || c == b'v'
    || c == b'M'
    || c == b's'
    || c == b'z'

-- The unit that applies, from the one of the context and the valid one `c` that was written.
unfoldable pub choose_unit : ℕ → ℕ → ℕ
choose_unit scaling_unit c =
    if scaling_unit == 0
    then scaling_unit
    else if scaling_unit == b'f'
    then (if c == b'f' || c == b'u' then c else scaling_unit)
    else if scaling_unit == b'z'
    then (if c == b'u' || c == b'z' || c == b'p' || c == b's' then c else scaling_unit)
    else if scaling_unit == b'u'
    then c
    else if c == b'z'
    then scaling_unit
    else c

-- `while (divisor > INT_MAX / (sizescale * 72))`, at most ten rounds: a divisor has ten digits.
unfoldable pub shrink : ℕ → ℕ → Fraction → Fraction
shrink zero limit s = s
shrink (suc rounds) limit s =
    let rest =
      shrink rounds limit (record { value = quot s.value (pos 10); divisor = s.divisor / 10 }) in
    if ltb limit s.divisor then rest else s

module _ (dev : Device) where
  -- `scale`, with its assertions that x ≥ 0 and y > 0.
  unfoldable pub scale_asserting : ℤ → ℤ → ℕ → Option ℤ
  scale_asserting n (negsuc _) y = none
  scale_asserting n (pos x) y = if y == 0 then none else some (scale dev.doubles n x y)

  -- A size as the units 'm', 'M' and 'n' take it: in whole device units, and at least one.
  unfoldable pub em_units : ℤ → Option ℤ
  em_units size = do
    em ← from_units dev.hresolution size
    some (if is_zero em then pos dev.hresolution else to_units dev.hresolution em)

  -- The switch over the unit `si`, on the number `u` over `divisor`.
  unfoldable pub apply_unit : Env → ℕ → ℤ → ℕ → Option ℤ
  apply_unit e si u divisor =
      if si == b'i'
      then scale_asserting u (pos dev.units_per_inch) divisor
      else if si == b'c'
      then (if leb (dev.units_per_inch * 100) int_max
          then scale_asserting u (pos (dev.units_per_inch * 100)) (divisor * 254)
          else none)
      else if si == 0 || si == b'u'
      then some (if divisor == 1 then u else quot u (pos divisor))
      else if si == b'f'
      then scale_asserting u (pos 65536) divisor
      else if si == b'p'
      then scale_asserting u (pos dev.units_per_inch) (divisor * 72)
      else if si == b'P'
      then scale_asserting u (pos dev.units_per_inch) (divisor * 6)
      else if si == b'm'
      then em_units e.size >>= (λ em. scale_asserting u em divisor)
      else if si == b'M'
      then em_units e.size >>= (λ em. scale_asserting u em (divisor * 100))
      else if si == b'n'
      then em_units (quot e.size (pos 2)) >>= (λ en. scale_asserting u en divisor)
      else if si == b'v'
      then scale_asserting u (to_units dev.vresolution e.vertical_spacing) divisor
      else if si == b's'
      then (let s =
            shrink 10 (int_max / (dev.sizescale * 72)) (record { value = u; divisor = divisor }) in
          scale_asserting s.value (pos dev.units_per_inch) (s.divisor * dev.sizescale * 72))
      else if si == b'z'
      then scale_asserting u (pos dev.sizescale) divisor
      else none
