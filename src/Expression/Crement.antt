-- ===== src/Expression/Crement.antt =====
-- The readers of number.cpp that take a previous value: an expression with a leading sign changes it.
pub mod Wrapping
use groff.Prelude.{ℕ, Bool, true, false, if◌then◌else◌, ◌==◌, Option, none, some, ℤ, pos}
use groff.Int32.{Checked, ckd_add, ckd_sub}
use groff.Units.{from_units, to_units}
use groff.Expression.Input.{
  Input, current, cur_ch, next, is_newline, skip_spaces, Outcome, rejected, Reader, ◌>>=◌, accepted,
}
use groff.Expression.Number.{Device}
use groff.Expression.Reader.{from_option, fuel, read_expression}

-- `crement`, without its INVALID, which is a reader that is rejected.
pub data Crement : Type 0 where
  assign increment decrement : Crement

module _ (dev : Device) where
  read_after_sign : ℕ → Crement → Input → Outcome (Crement × ℤ)
  read_after_sign unit c i =
      read_expression dev (fuel dev i) unit false false i >>= λ u j. accepted (c, u) j

  unfoldable pub read_crement : ℕ → Input → Outcome (Crement × ℤ)
  unfolding read_after_sign
  read_crement unit i =
      let j = skip_spaces i in
      if is_newline (current j)
      then rejected j
      else if cur_ch j == b'+'
      then read_after_sign unit increment (next j)
      else if cur_ch j == b'-'
      then read_after_sign unit decrement (next j)
      else read_after_sign unit assign j

-- The switch over a crement: a checked operation stores its result, whatever it reports.
unfoldable pub apply_crement : ℤ → Crement → ℤ → ℤ
apply_crement operand assign u = u
apply_crement operand increment u = (ckd_add operand u).wrapped
apply_crement operand decrement u = (ckd_sub operand u).wrapped

module _ (dev : Device) where
  -- `read_measurement_crement`; `read_integer_crement` is this with the unit 0.
  unfoldable pub read_measurement_crement : ℕ → ℤ → Reader ℤ
  read_measurement_crement unit operand i =
      read_crement dev unit i >>= λ c j. accepted (apply_crement operand c.0 c.1) j

  unfoldable pub read_integer_crement : ℤ → Reader ℤ
  read_integer_crement operand i = read_measurement_crement 0 operand i

  -- `read_vunits` and `read_hunits` with a previous value, which is in device units of `res`.
  unfoldable pub read_units_crement : ℕ → ℕ → ℤ → Reader ℤ
  read_units_crement res unit prev_value i = read_crement dev unit i >>= λ c j.
      from_option (from_units res (apply_crement (to_units res prev_value) c.0 c.1)) j
