-- ===== src/Expression/LeftToRight.antt =====
-- An expression without parentheses, of numbers without a unit, is evaluated from left to right: no operator binds tighter than
-- another.
use groff.Prelude.{ℕ, ◌≤◌, ◌≡◌, false, not, ◌&&◌, List, [], ◌∷◌, All, codes, ◌==◌, ℤ, pos}
use groff.Int32.{int_max}
use groff.Expression.Input.{
  char, Env, Input, tok, cur_ch, csdigit, Outcome, Reader, accepted, ◌>>=◌,
}
use groff.Expression.Number.{is_scaling_unit}
use groff.Expression.Operators.{
  Operator, plus, minus, divide, times, modulo, or, and, greater, greater_or_equal, maximum, less,
  less_or_equal, minimum, equal,
}
use groff.Expression.Meaning.{meaning}
use groff.Expression.Digits.{IsDigit, spell, decimal}

-- How an operator is written.
abbrev pub spelling : Operator → List ℕ
spelling plus = codes "+"
spelling minus = codes "-"
spelling divide = codes "/"
spelling times = codes "*"
spelling modulo = codes "%"
spelling or = codes ":"
spelling and = codes "&"
spelling greater = codes ">"
spelling greater_or_equal = codes ">="
spelling maximum = codes ">?"
spelling less = codes "<"
spelling less_or_equal = codes "<="
spelling minimum = codes "<?"
spelling equal = codes "="

abbrev pub write : Env → List ℕ → Input → Input
write e [] i = i
write e (c ∷ s) i = tok (char c) e (write e s i)

-- An operator and the digits of its right operand, of which there is at least one.
pub record Operation : Type 0 where
  pub operator : Operator
  pub digit : ℕ
  pub digits : List ℕ

abbrev pub operand : Operation → ℕ
operand o = decimal 0 (o.digit ∷ o.digits)

pub record IsWritten (d : ℕ) (ds : List ℕ) : Type 0 where
  pub first : IsDigit d
  pub others : All IsDigit ds
  pub fits : decimal 0 (d ∷ ds) ≤ int_max

abbrev pub AllWritten : List Operation → Type 0
AllWritten [] = Unit
AllWritten (o ∷ c) = IsWritten o.digit o.digits × AllWritten c

abbrev pub write_operations : Env → List Operation → Input → Input
write_operations e [] i = i
write_operations e (o ∷ c) i =
    write e (spelling o.operator) (spell e (o.digit ∷ o.digits) (write_operations e c i))

-- What the operators mean, in the order in which they stand, until one is refused or undefined.
abbrev pub from_left : Env → ℤ → List Operation → Input → Outcome ℤ
from_left e u [] i = accepted u i
from_left e u (o ∷ c) i =
    meaning o.operator u (pos (operand o)) (write_operations e c i) >>= λ v _. from_left e v c i

-- What ends a number: no digit, no decimal point, and no scaling unit.
pub record EndsNumber (i : Input) : Type 0 where
  pub no_digit : csdigit (cur_ch i) ≡ false
  pub no_point : (cur_ch i == b'.') ≡ false
  pub no_unit : (not (cur_ch i == 0) && is_scaling_unit (cur_ch i)) ≡ false
