-- ===== src/Expression/Operators.antt =====
-- The operators of `is_valid_expression`: how each is read, and what it does.
use groff.Prelude.{
  Bool, ◌&&◌, ◌||◌, if◌then◌else◌, ◌==◌, ltb_ℤ, leb_ℤ, eq_ℤ, Option, none, some, ℤ, pos,
}
use groff.Int32.{Checked, ckd_add, ckd_sub, ckd_mul, int_div, int_mod}
use groff.Expression.Input.{Input, cur_ch, next, Outcome, accepted, rejected, undefined}

pub data Operator : Type 0 where
  plus minus divide times modulo or and : Operator
  greater greater_or_equal maximum less less_or_equal minimum equal : Operator

-- The switch that reads an operator; `none` is its default case.
unfoldable pub read_operator : Input → Option (Operator × Input)
read_operator i =
    let c = cur_ch i in
    let j = next i in
    if c == b'+'
    then some (plus, j)
    else if c == b'-'
    then some (minus, j)
    else if c == b'/'
    then some (divide, j)
    else if c == b'*'
    then some (times, j)
    else if c == b'%'
    then some (modulo, j)
    else if c == b':'
    then some (or, j)
    else if c == b'&'
    then some (and, j)
    else if c == b'>'
    then (if cur_ch j == b'='
        then some (greater_or_equal, next j)
        else if cur_ch j == b'?'
        then some (maximum, next j)
        else some (greater, j))
    else if c == b'<'
    then (if cur_ch j == b'='
        then some (less_or_equal, next j)
        else if cur_ch j == b'?'
        then some (minimum, next j)
        else some (less, j))
    else if c == b'='
    then some (equal, (if cur_ch j == b'=' then next j else j))
    else none

-- A C++ `bool` as an `int`.
abbrev pub truth : Bool → ℤ
truth b = if b then pos 1 else pos 0

-- A checked operation refuses the expression on overflow.
unfoldable pub checked_value : Checked → Input → Outcome ℤ
checked_value c i = if c.overflowed then rejected i else accepted c.wrapped i

unfoldable pub divided : Option ℤ → ℤ → Input → Outcome ℤ
divided none b i = if eq_ℤ b (pos 0) then rejected i else undefined
divided (some q) b i = if eq_ℤ b (pos 0) then rejected i else accepted q i

-- The switch that applies an operator to `*u` and `u2`, with the input at the end of `u2`.
unfoldable pub apply_operator : Operator → ℤ → ℤ → Input → Outcome ℤ
apply_operator plus a b i = checked_value (ckd_add a b) i
apply_operator minus a b i = checked_value (ckd_sub a b) i
apply_operator times a b i = checked_value (ckd_mul a b) i
apply_operator divide a b i = divided (int_div a b) b i
apply_operator modulo a b i = divided (int_mod a b) b i
apply_operator or a b i = accepted (truth (ltb_ℤ (pos 0) a || ltb_ℤ (pos 0) b)) i
apply_operator and a b i = accepted (truth (ltb_ℤ (pos 0) a && ltb_ℤ (pos 0) b)) i
apply_operator greater a b i = accepted (truth (ltb_ℤ b a)) i
apply_operator greater_or_equal a b i = accepted (truth (leb_ℤ b a)) i
apply_operator less a b i = accepted (truth (ltb_ℤ a b)) i
apply_operator less_or_equal a b i = accepted (truth (leb_ℤ a b)) i
apply_operator maximum a b i = accepted (if ltb_ℤ a b then b else a) i
apply_operator minimum a b i = accepted (if ltb_ℤ b a then b else a) i
apply_operator equal a b i = accepted (truth (eq_ℤ a b)) i
