-- ===== src/Register/Tests.antt =====
-- Registers with small values.
use groff.Prelude.{
  ◌↔◌, All, ℕ, suc, ◌+◌, ◌≤◌, ◌≡◌, refl, true, false, some, List, ◌∷◌, arith, codes, length, pos,
  negsuc,
}
use groff.Register.Decimal.Laws.{read_int}
use groff.Register.Roman.{roman, roman_magnitude, roman_digits, roman_digit, ten_thousands}
use groff.Register.Roman.Value.{roman_value, roman_value-roman}
use groff.Register.Roman.Size.{scratchpad_size, roman-size}
use groff.Register.Alphabetic.{alphabetic}
use groff.Register.Alphabetic.Laws.{IsLetter, alphabetic_lem, value}
use groff.Register.Format.{number_value_to_ascii}
use groff.Register.Laws.{decimal_format}

decimal_format_example :
    (s : List ℕ) × (number_value_to_ascii false (negsuc 41) b'1' (pos 4) ≡ some s)
    × (read_int s ≡ negsuc 41)
    × (length s + 1 ≤ scratchpad_size)
decimal_format_example = decimal_format false (negsuc 41) (pos 4) (ground arith)

roman_value-roman_example :
    (roman_value (roman true b'i' (pos 14949)) ≡ 14949)
    × (s : List ℕ) × (roman true b'i' (negsuc 14948) ≡ b'-' ∷ s)
    × (roman_value s ≡ 14949)
roman_value-roman_example = roman_value-roman true b'i' 14948 (ground arith)

roman-size_example :
    (length (roman true b'I' (pos 38888)) + 1 ≤ scratchpad_size)
    × (length (roman true b'I' (negsuc 38887)) + 1 ≤ scratchpad_size + 1)
    × (length (roman true b'I' (negsuc 38887)) + 1 ≡ scratchpad_size + 1
        ↔ (true ≡ true) × (suc 38887 ≡ 38888))
roman-size_example = roman-size true b'I' 38887 (ground arith)

fourteen : roman false b'i' (pos 14) ≡ codes "xiv"
unfolding roman roman_magnitude roman_digits roman_digit ten_thousands
fourteen = refl

alphabetic_lem_example :
    (s : List ℕ) × (alphabetic b'a' (pos 702) ≡ some s)
    × (alphabetic b'a' (negsuc 701) ≡ some (b'-' ∷ s))
    × All (IsLetter b'a') s
    × (value b'a' 0 s ≡ 702)
    × (length s ≤ 7)
alphabetic_lem_example = alphabetic_lem b'a' 701 (ground arith)
