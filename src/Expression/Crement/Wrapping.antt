-- ===== src/Expression/Crement/Wrapping.antt =====
-- What an overflowing increment stores.
use groff.Prelude.{◌^◌, ◌≡◌, ℤ, pos, negsuc, arith, ◌+ℤ◌, ◌<ℤ◌}
use groff.Int32.{int_max, IsInt, ckd_add}
use groff.Expression.Crement.{apply_crement, increment}

-- Where an increment goes beyond INT_MAX the stored value is the sum less 2^32, which is negative: it
-- is not the limit, as the warning "integer incrementation saturated" has it.
pub increment_wraps :
    (a b : ℤ)
    → IsInt a
    → IsInt b
    → pos int_max <ℤ (a +ℤ b)
    → (apply_crement a increment b +ℤ pos (2 ^ 32) ≡ a +ℤ b)
      × (apply_crement a increment b <ℤ pos 0)
unfolding apply_crement ckd_add ◌+ℤ◌
increment_wraps (pos a) (pos b) ha hb h = ground arith
increment_wraps (pos a) (negsuc b) ha hb h = absurd (ground arith)
increment_wraps (negsuc a) (pos b) ha hb h = absurd (ground arith)
increment_wraps (negsuc a) (negsuc b) ha hb h = absurd (ground arith)
