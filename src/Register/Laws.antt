-- ===== src/Register/Laws.antt =====
-- What a register shows, and what stepping it does.
use groff.Prelude.Maybe.{◌>>=◌}
use groff.Prelude.{
  ℕ, ◌+◌, ◌≤◌, ◌≡◌, ◌≢◌, refl, inl, inr, Bool, none, some, List, arith, Bool-cases, length, ℤ, pos,
  pos_part, ◌+ℤ◌, ◌-ℤ◌, int_laws, ltb_ℤ, leb_ℤ,
}
use groff.Int32.{IsInt, IsInt→in_range, in_range}
use groff.Units.{plain}
use groff.Register.Decimal.{print_width, i_to_a}
use groff.Register.Decimal.Laws.{
  read_int, read_int-print_width, read_int-i_to_a, length-print_width, length-i_to_a,
}
use groff.Register.Format.{
  number_value_to_ascii, Reg, number_reg, variable_reg, readonly, get_value, get_increment,
  set_value, increment, decrement,
}
use groff.Register.Roman.Size.{scratchpad_size}

-- The decimal format shows every `int` in full, whatever the width, in a string that fits in the
-- scratchpad with its final null.
pub decimal_format :
    (compat : Bool) (v width : ℤ)
    → IsInt v
    → (s : List ℕ) × (number_value_to_ascii compat v b'1' width ≡ some s)
      × (read_int s ≡ v)
      × (length s + 1 ≤ scratchpad_size)
unfolding number_value_to_ascii
decimal_format compat v width h = elim (Bool-cases (leb_ℤ width (pos 0))) [
  | inl narrow ↦ (i_to_a v, rw narrow, read_int-i_to_a v, omega (arith, length-i_to_a v h))
  | inr wide ↦ elim (Bool-cases (ltb_ℤ (pos 18) width)) [
    | inl over ↦ (
      print_width 18 v,
      rw (wide, over),
      read_int-print_width 18 v,
      omega (arith, length-print_width 18 v h),
    )
    | inr fits ↦ (
      print_width (pos_part width) v,
      rw (wide, fits),
      read_int-print_width (pos_part width) v,
      ground (arith, length-print_width (pos_part width) v h),
    )
  ]
]

abbrev HasIntValue : Reg → Type 0
HasIntValue (number_reg r) = IsInt r.value
HasIntValue (variable_reg r) = IsInt r.value
HasIntValue (readonly s) = Unit

cancel : (a b : ℤ) → a +ℤ b -ℤ b ≡ a
cancel a b = omega int_laws

-- Where incrementing a register is defined, decrementing it then gives the register back.
pub decrement-increment :
    (r : Reg) → HasIntValue r → increment r ≢ none → (increment r >>= decrement) ≡ some r
unfolding increment decrement get_value get_increment set_value plain
decrement-increment (number_reg r) h ne = elim (Bool-cases (in_range (r.value +ℤ r.inc))) [
  | inl fits ↦ rw (fits, cancel r.value r.inc, IsInt→in_range r.value h)
  | inr over ↦ absurd (ne (rw over))
]
decrement-increment (variable_reg r) h ne = elim (Bool-cases (in_range (r.value +ℤ r.inc))) [
  | inl fits ↦ rw (fits, cancel r.value r.inc, IsInt→in_range r.value h)
  | inr over ↦ absurd (ne (rw over))
]
decrement-increment (readonly s) h ne = refl
