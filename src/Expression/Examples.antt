-- ===== src/Expression/Examples.antt =====
-- The theorems about expressions, applied to small inputs.
use groff.Prelude.{
  ℕ, suc, ◌^◌, ◌≤◌, ◌<◌, ◌≡◌, ◌↔◌, ◌⊎◌, refl, false, List, [], ◌∷◌, arith, codes, take, pos, negsuc,
  ◌+ℤ◌, ◌<ℤ◌,
}
use groff.Int32.{int_max, int_min}
use groff.Units.Scale.{IsScaled, scale, scale-IsScaled}
use groff.Expression.Input.{size, undefined, rejected}
use groff.Expression.Operators.{plus, times, modulo, apply_operator}
use groff.Expression.Reader.{read_measurement}
use groff.Expression.Number.{read_digits}
use groff.Expression.Steps.{Safe}
use groff.Expression.Total.{read_measurement-Safe}
use groff.Expression.Digits.{read_digits-prefix, decimal, spell, state}
use groff.Expression.LeftToRight.{Operation}
use groff.Expression.Faults.{apply_operator_undefined, IsDivision}
use groff.Expression.Crement.{apply_crement, increment}
use groff.Expression.Crement.Wrapping.{increment_wraps}
use groff.Units.Binary64.{binary64}
use groff.Expression.Tests.{ps, ten_point, typed}

scale-IsScaled_example :
    IsScaled (negsuc 1499999) 72000 1000 (scale binary64 (negsuc 1499999) 72000 1000)
scale-IsScaled_example =
    scale-IsScaled binary64 (negsuc 1499999) 72000 1000 (ground arith) (ground arith) (ground arith)
      (ground arith)

read_measurement-Safe_example :
    Safe (size (typed (codes "(1.5i-2"))) (read_measurement ps b'u' false (typed (codes "(1.5i-2")))
read_measurement-Safe_example = read_measurement-Safe ps b'u' false (typed (codes "(1.5i-2"))

read_digits-prefix_example :
    (k : ℕ) × (read_digits (state 0 false) (spell ten_point (4 ∷ 2 ∷ []) (typed []))
      ≡ (pos (decimal 0 (take k (4 ∷ 2 ∷ []))), typed []))
    × (decimal 0 (take k (4 ∷ 2 ∷ [])) ≤ int_max)
    × ((k ≡ 2) ⊎ (int_max < decimal 0 (take (suc k) (4 ∷ 2 ∷ []))))
read_digits-prefix_example =
    read_digits-prefix ten_point (typed []) refl 0 (4 ∷ 2 ∷ []) (ground arith) (ground arith)

-- Behind the digit 2, `+3*4`.
abbrev sum_and_product : List Operation
sum_and_product =
    record { operator = plus; digit = 3; digits = [] }
    ∷ record { operator = times; digit = 4; digits = [] }
    ∷ []

apply_operator_undefined_example :
    ((apply_operator modulo int_min (negsuc 0) (typed []) ≡ undefined)
      ↔ (IsDivision modulo × (int_min ≡ int_min) × (negsuc 0 ≡ negsuc 0)))
    × (IsDivision modulo
        → negsuc 0 ≡ pos 0
        → apply_operator modulo int_min (negsuc 0) (typed []) ≡ rejected (typed []))
apply_operator_undefined_example =
    apply_operator_undefined modulo int_min (negsuc 0) (typed []) (ground arith)

increment_wraps_example :
    (apply_crement (pos int_max) increment (pos 1) +ℤ pos (2 ^ 32) ≡ pos int_max +ℤ pos 1)
    × (apply_crement (pos int_max) increment (pos 1) <ℤ pos 0)
unfolding ◌+ℤ◌
increment_wraps_example =
    increment_wraps (pos int_max) (pos 1) (ground arith) (ground arith) (ground arith)
