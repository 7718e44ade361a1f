-- ===== src/Unicode/Names.antt =====
-- The name of a character, as preconv writes it, is accepted.
use groff.Prelude.{
  ℕ, ◌+◌, ◌*◌, ◌/◌, ◌%◌, ◌≤◌, ◌<◌, ◌≡◌, ◌≢◌, ◌⊎◌, refl, ◌∙◌, inl, inr, Bool, true, false, ◌&&◌,
  ◌||◌, none, List, [], ◌∷◌, arith, ltb, ◌==◌, Bool-cases, get_or,
}
use groff.Characters.{csdigit, csupper, csxdigit}
use groff.Unicode.{
  valid, component_refusal, scan, upper_value, valid_unicode_code_sequence, hex_char, hex_digits,
  print_04x,
}

-- A Unicode scalar value: a code point that is not a surrogate.
abbrev pub IsScalar : ℕ → Type 0
IsScalar c = (c < 55296) ⊎ ((57343 < c) × (c ≤ 1114111))

hex_char_lem :
    (d : ℕ)
    → d < 16
    → ((hex_char d == b'_') ≡ false)
      × (csxdigit (hex_char d) ≡ true)
      × ((csdigit (hex_char d) || csupper (hex_char d)) ≡ true)
      × (upper_value (hex_char d) ≡ d)
hex_char_lem d lt = ground arith

hex_char-nonzero : (d : ℕ) → 0 < d → d < 16 → hex_char d ≢ b'0'
hex_char-nonzero d h lt e = ground arith

and-false : (b : Bool) → (b && false) ≡ false
and-false true = refl
and-false false = refl

-- One digit of a component.
scan_digit :
    (u : List ℕ) (started : Bool) (val width d : ℕ) (s : List ℕ)
    → d < 16
    → val * 16 + d ≤ 1114111
    → scan u started val width (hex_char d ∷ s) ≡ scan u true (val * 16 + d) (width + 1) s
unfolding scan
scan_digit u started val width d s lt fits =
    let (bar, hex, up, same) = hex_char_lem d lt in
    let within : ltb 1114111 (val * 16 + d) ≡ false = ground arith in
    rw (bar, hex, up, same, within, and-false started) refl

scan_end :
    (u : List ℕ) (val width : ℕ)
    → component_refusal (get_or u 0 0) val width ≡ none
    → scan u true val width [] ≡ valid u
unfolding scan
scan_end u val width e = rw e refl

-- The tests that a whole component passes.
no_refusal :
    (leading val width : ℕ)
    → IsScalar val
    → 4 ≤ width
    → (width ≡ 4) ⊎ (leading ≢ b'0')
    → component_refusal leading val width ≡ none
unfolding component_refusal
no_refusal leading val width scalar four lead = ground arith

module _ (c : ℕ) (scalar : IsScalar c) where
  -- The last four digits, behind a value `v` that is the rest of `c`.
  four_digits :
      (u : List ℕ) (started : Bool) (v width : ℕ)
      → c / 65536 ≡ v
      → 4 ≤ width + 4
      → (width ≡ 0) ⊎ (get_or u 0 0 ≢ b'0')
      → scan u started v width (hex_digits 4 c) ≡ valid u
  four_digits u started v width e four lead =
      scan_digit u started v width (c / 4096 % 16) _ (omega arith) (omega arith)
      ∙ scan_digit u true (v * 16 + c / 4096 % 16) (width + 1) (c / 256 % 16) _ (omega arith)
          (omega arith)
      ∙ scan_digit u true ((v * 16 + c / 4096 % 16) * 16 + c / 256 % 16) (width + 1 + 1)
          (c / 16 % 16) _ (omega arith) (omega arith)
      ∙ scan_digit u true (((v * 16 + c / 4096 % 16) * 16 + c / 256 % 16) * 16 + c / 16 % 16)
          (width + 1 + 1 + 1) (c / 1 % 16) [] (omega arith) (omega arith)
      ∙ whole u _ (width + 1 + 1 + 1 + 1) (omega arith) (omega arith) (ground arith)
    where
      whole :
          (u : List ℕ) (val width : ℕ)
          → val ≡ c
          → 4 ≤ width
          → (width ≡ 4) ⊎ (get_or u 0 0 ≢ b'0')
          → scan u true val width [] ≡ valid u
      whole u val width e h lead =
          scan_end u val width (no_refusal (get_or u 0 0) val width (rw e scalar) h lead)

  accepted_four :
      ltb c 65536 ≡ true → scan (hex_digits 4 c) false 0 0 (hex_digits 4 c) ≡ valid (hex_digits 4 c)
  accepted_four small =
      four_digits (hex_digits 4 c) false 0 0 (ground arith) (omega arith) (inl refl)

  accepted_five :
      65536 ≤ c
      → c < 1048576
      → scan (hex_digits 5 c) false 0 0 (hex_digits 5 c) ≡ valid (hex_digits 5 c)
  accepted_five large small =
      scan_digit (hex_digits 5 c) false 0 0 (c / 65536 % 16) (hex_digits 4 c) (omega arith)
        (omega arith)
      ∙ four_digits (hex_digits 5 c) true (0 * 16 + c / 65536 % 16) (0 + 1) (omega arith)
          (omega arith) (inr (hex_char-nonzero (c / 65536 % 16) (omega arith) (omega arith)))

  accepted_six :
      1048576 ≤ c → scan (hex_digits 6 c) false 0 0 (hex_digits 6 c) ≡ valid (hex_digits 6 c)
  accepted_six large =
      scan_digit (hex_digits 6 c) false 0 0 (c / 1048576 % 16) (hex_digits 5 c) (omega arith)
        (omega arith)
      ∙ scan_digit (hex_digits 6 c) true (0 * 16 + c / 1048576 % 16) (0 + 1) (c / 65536 % 16)
          (hex_digits 4 c) (omega arith) (omega arith)
      ∙ four_digits (hex_digits 6 c) true ((0 * 16 + c / 1048576 % 16) * 16 + c / 65536 % 16)
          (0 + 1 + 1) (omega arith) (omega arith)
          (inr (hex_char-nonzero (c / 1048576 % 16) (omega arith) (omega arith)))

  scan-print_04x : scan (print_04x c) false 0 0 (print_04x c) ≡ valid (print_04x c)
  scan-print_04x = elim (Bool-cases (ltb c 65536)) [
    | inl four ↦ rw four (accepted_four four)
    | inr more ↦ elim (Bool-cases (ltb c 1048576)) [
      | inl five ↦ rw (more, five) (accepted_five (ground arith) (ground arith))
      | inr six ↦
          let within : ltb c 16777216 ≡ true = ground arith in
          rw (more, six, within) (accepted_six (ground arith))
    ]
  ]

-- The name of every Unicode character, `u` and its code point in four to six digits, is accepted.
pub valid_unicode_code_sequence-print_04x :
    (c : ℕ) → IsScalar c → valid_unicode_code_sequence (b'u' ∷ print_04x c) ≡ valid (print_04x c)
unfolding valid_unicode_code_sequence
valid_unicode_code_sequence-print_04x c scalar = scan-print_04x c scalar
