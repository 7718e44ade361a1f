-- ===== src/Register/Format.antt =====
-- `number_value_to_ascii` and `number_format_to_ascii` as a whole, and the registers themselves: the
-- class `reg` and those derived from it in reg.cpp and reg.h, with their virtual functions.
-- Both sizes come from `scratchpad_size`, 20.
use groff.Prelude.{
  ℕ, Bool, ◌||◌, Option, none, some, List, [], ◌∷◌, ◌==◌, if◌then◌else◌, codes, ℤ, pos, pos_part,
  ◌+ℤ◌, ◌-ℤ◌, ltb_ℤ, leb_ℤ,
}
use groff.Prelude.Maybe.{◌>>=◌}
use groff.Units.{plain}
use groff.Register.Decimal.{i_to_a, print_width}
use groff.Register.Roman.{roman}
use groff.Register.Alphabetic.{alphabetic}

-- The switch over the format; any other format fails an assertion.
unfoldable pub number_value_to_ascii : Bool → ℤ → ℕ → ℤ → Option (List ℕ)
number_value_to_ascii compat value format width =
    if format == b'1'
    then some (
        if leb_ℤ width (pos 0)
        then i_to_a value
        else if ltb_ℤ (pos 18) width
        then print_width 18 value
        else print_width (pos_part width) value)
    else if format == b'i' || format == b'I'
    then some (roman compat format value)
    else if format == b'a' || format == b'A'
    then alphabetic format value
    else none

unfoldable pub number_format_to_ascii : ℕ → ℤ → List ℕ
number_format_to_ascii format width =
    if format == b'1'
    then (if ltb_ℤ (pos 0) width
        then print_width (if ltb_ℤ (pos 19) width then 19 else pos_part width) (pos 0)
        else codes "0")
    else format ∷ []

-- `general_reg`, with the value of a `number_reg`, or of what the pointer of a `variable_reg` refers to.
pub record GeneralReg : Type 0 where
  pub format : ℕ
  pub width : ℤ
  pub inc : ℤ
  pub value : ℤ

pub data Reg : Type 0 where
  number_reg : GeneralReg → Reg
  variable_reg : GeneralReg → Reg
  readonly : List ℕ → Reg

abbrev pub new_number_reg : Reg
new_number_reg = number_reg (record { format = b'1'; width = pos 0; inc = pos 0; value = pos 0 })

-- A change of a register that is not read-only. A read-only register only reports an error.
abbrev pub change : (GeneralReg → GeneralReg) → Reg → Reg
change f (number_reg r) = number_reg (f r)
change f (variable_reg r) = variable_reg (f r)
change f (readonly s) = readonly s

unfoldable pub get_value : Reg → Option ℤ
get_value (number_reg r) = some r.value
get_value (variable_reg r) = some r.value
get_value (readonly s) = none

unfoldable pub set_value : ℤ → Reg → Reg
set_value n = change (λ r. record r { value = n })

unfoldable pub set_increment : ℤ → Reg → Reg
set_increment n = change (λ r. record r { inc = n })

unfoldable pub alter_format : ℕ → ℤ → Reg → Reg
alter_format f w = change (λ r. record r { format = f; width = w })

unfoldable pub get_increment : Reg → ℤ
get_increment (number_reg r) = r.inc
get_increment (variable_reg r) = r.inc
get_increment (readonly s) = pos 0

-- `set_value(n + inc)` and `set_value(n - inc)`, on `int` with no check.
unfoldable pub step_value : (ℤ → ℤ → ℤ) → Reg → Option Reg
unfolding plain
step_value op r = elim (get_value r) [
  | none ↦ some r
  | some n ↦ plain (op n (get_increment r)) >>= λ v. some (set_value v r)
]

unfoldable pub increment : Reg → Option Reg
unfolding step_value
increment r = step_value ◌+ℤ◌ r

unfoldable pub decrement : Reg → Option Reg
unfolding step_value
decrement r = step_value ◌-ℤ◌ r

unfoldable pub get_string : Bool → Reg → Option (List ℕ)
get_string compat (number_reg r) = number_value_to_ascii compat r.value r.format r.width
get_string compat (variable_reg r) = number_value_to_ascii compat r.value r.format r.width
get_string compat (readonly s) = some s

unfoldable pub get_format : Reg → List ℕ
get_format (number_reg r) = number_format_to_ascii r.format r.width
get_format (variable_reg r) = number_format_to_ascii r.format r.width
get_format (readonly s) = codes "0"
