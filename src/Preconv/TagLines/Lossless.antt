-- ===== src/Preconv/TagLines/Lossless.antt =====
-- No byte is lost by reading ahead.
use groff.Prelude.{
  ℕ, zero, suc, ◌-◌, ◌≡◌, ◌≢◌, refl, ap, ◌∙◌, inl, inr, Bool, true, false, ◌||◌, List, [], ◌∷◌,
  ◌++◌, append_assoc, arith, ltb, ◌==◌, Bool-cases,
}
use groff.Preconv.TagLines.{
  cr, lf, count_newlines, read_line, behind_cr, is_cr, read_round, read_rounds, get_tag_lines,
}

-- The last byte of a file is a CR.
abbrev pub ends_with_cr : List ℕ → Bool
ends_with_cr [] = false
ends_with_cr (c ∷ []) = c == cr
ends_with_cr (c ∷ d ∷ file) = ends_with_cr (d ∷ file)

ends_behind : (c : ℕ) (file : List ℕ) → ends_with_cr (c ∷ file) ≡ false → ends_with_cr file ≡ false
ends_behind c [] h = refl
ends_behind c (d ∷ file) h = h

-- What is kept of a file that does not end with a CR.
read_line_lem :
    (file : List ℕ)
    → ends_with_cr file ≡ false
    → ((read_line file).bytes ++ (read_line file).rest ≡ file)
      × (ends_with_cr (read_line file).rest ≡ false)
      × (is_cr (read_line file).last ≡ true → (read_line file).rest ≢ [])
unfolding read_line
read_line_lem [] h = (refl, refl, λ e. absurd (ground arith))
read_line_lem (c ∷ file) h = elim (Bool-cases (c == lf || c == cr)) [
  | inl ends ↦ rw ends (refl, ends_behind c file h, λ e empty. cr_last c file h e empty)
  | inr more ↦
      let (whole, kept, behind) = read_line_lem file (ends_behind c file h) in
      rw more (ap (λ s. c ∷ s) whole, kept, behind)
]
  where
    cr_last :
        (c : ℕ) (file : List ℕ) → ends_with_cr (c ∷ file) ≡ false → (c == cr) ≡ true → file ≡ [] → ⊥
    cr_last c [] h e empty = absurd (ground arith)
    cr_last c (d ∷ file) h e empty = absurd (ground arith)

behind_cr_lem :
    (file : List ℕ)
    → file ≢ []
    → ends_with_cr file ≡ false
    → ((behind_cr file).0 ++ (behind_cr file).1 ≡ file) × (ends_with_cr (behind_cr file).1 ≡ false)
unfolding behind_cr
behind_cr_lem [] ne h = absurd (ne refl)
behind_cr_lem (c ∷ file) ne h = elim (Bool-cases (c == lf)) [
  | inl taken ↦ rw taken (refl, ends_behind c file h)
  | inr left ↦ rw left (refl, h)
]

read_round_lem :
    (file : List ℕ)
    → ends_with_cr file ≡ false
    → ((read_round file).0 ++ (read_round file).1 ≡ file)
      × (ends_with_cr (read_round file).1 ≡ false)
unfolding read_round
read_round_lem file h =
    let (whole, kept, behind) = read_line_lem file h in
    elim (Bool-cases (is_cr (read_line file).last)) [
      | inl at ↦
          let (whole2, kept2) = behind_cr_lem (read_line file).rest (behind at) kept in
          rw at (
            append_assoc (read_line file).bytes (behind_cr (read_line file).rest).0
                  (behind_cr (read_line file).rest).1
                ∙ ap (λ s. (read_line file).bytes ++ s) whole2
                ∙ whole,
            kept2,
          )
      | inr other ↦ rw other (whole, kept)
    ]

read_rounds_lem :
    (rounds : ℕ) (file : List ℕ)
    → ends_with_cr file ≡ false
    → (read_rounds rounds file).0 ++ (read_rounds rounds file).1 ≡ file
unfolding read_rounds
read_rounds_lem zero file h = refl
read_rounds_lem (suc rounds) file h =
    let (whole, kept) = read_round_lem file h in
    append_assoc (read_round file).0 (read_rounds rounds (read_round file).1).0
      (read_rounds rounds (read_round file).1).1
    ∙ ap (λ s. (read_round file).0 ++ s) (read_rounds_lem rounds (read_round file).1 kept)
    ∙ whole

-- The data and the rest of the file are together what they were before, byte by byte, for a file that does
-- not end with a CR, whatever data were read before.
pub get_tag_lines-append :
    (read file : List ℕ)
    → ends_with_cr file ≡ false
    → (get_tag_lines read file).1 ++ (get_tag_lines read file).2 ≡ read ++ file
unfolding get_tag_lines
get_tag_lines-append read file h = elim (Bool-cases (ltb 1 (count_newlines 0 0 read))) [
  | inl enough ↦ rw enough refl
  | inr few ↦
      let rounds = 2 - count_newlines 0 0 read in
      rw few (
        append_assoc read (read_rounds rounds file).0 (read_rounds rounds file).1
        ∙ ap (λ s. read ++ s) (read_rounds_lem rounds file h))
]
