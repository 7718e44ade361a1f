-- ===== src/Register/Alphabetic/Laws.antt =====
-- Reading letters back, and their number.
use native.Mathlib.Nat.{pow-suc}
use groff.Prelude.{
  All, ℕ, zero, suc, ◌+◌, ◌-◌, ◌*◌, ◌/◌, ◌%◌, ◌^◌, ◌≤◌, ◌<◌, ◌≡◌, refl, ap, ◌∙◌, inl, inr, some,
  List, [], ◌∷◌, ◌++◌, arith, ltb, ◌==◌, if◌then◌else◌, Bool-cases, length, length-append, pos,
  negsuc,
}
use mathlib.Core.List.{reverse, reverse-cons}
use groff.Register.Alphabetic.{letter, letters, alphabetic, int_max}

-- The first letter of the alphabet in the case of the format, and the letters of that alphabet.
abbrev pub first_letter : ℕ → ℕ
first_letter format = if format == b'a' then b'a' else b'A'

abbrev pub IsLetter : ℕ → ℕ → Type 0
IsLetter format c = (first_letter format ≤ c) × (c ≤ first_letter format + 25)

-- The number that letters spell behind `n`, in a system where the letters of the alphabet are the digits
-- from 1 to 26.
abbrev pub value : ℕ → ℕ → List ℕ → ℕ
value format n [] = n
value format n (c ∷ s) = value format (n * 26 + (c - first_letter format) + 1) s

-- The same from the last letter to the first.
abbrev value_back : ℕ → List ℕ → ℕ
value_back format [] = 0
value_back format (c ∷ s) = value_back format s * 26 + (c - first_letter format) + 1

value-append :
    (format n c : ℕ) (s : List ℕ)
    → value format n (s ++ c ∷ []) ≡ value format n s * 26 + (c - first_letter format) + 1
value-append format n c [] = refl
value-append format n c (d ∷ s) = value-append format (n * 26 + (d - first_letter format) + 1) c s

value-reverse : (format : ℕ) (s : List ℕ) → value format 0 (reverse s) ≡ value_back format s
value-reverse format [] = refl
value-reverse format (c ∷ s) = rw reverse-cons (
    value-append format 0 c (reverse s)
    ∙ ap (λ k. k * 26 + (c - first_letter format) + 1) (value-reverse format s))

letter_digit : (format d : ℕ) → 1 ≤ d → letter format d - first_letter format + 1 ≡ d
letter_digit format d h = ground arith

letter-IsLetter : (format d : ℕ) → 1 ≤ d → d ≤ 26 → IsLetter format (letter format d)
letter-IsLetter format d h k = ground arith

-- The digit that a round takes off, from 1 to 26.
abbrev last_digit : ℕ → ℕ
last_digit n = if n % 26 == 0 then 26 else n % 26

last_digit_lem :
    (n : ℕ)
    → 0 < n
    → (1 ≤ last_digit n) × (last_digit n ≤ n) × ((n - last_digit n) / 26 * 26 + last_digit n ≡ n)
last_digit_lem n h = ground arith

letters-AreLetters : (fuel format n : ℕ) → All (IsLetter format) (letters fuel format n)
unfolding letters
letters-AreLetters zero format n = tt
letters-AreLetters (suc fuel) format n = elim (Bool-cases (ltb 0 n)) [
  | inl more ↦ rw more (
    letter-IsLetter format (last_digit n) (ground arith) (ground arith),
    letters-AreLetters fuel format ((n - last_digit n) / 26),
  )
  | inr done ↦ rw done tt
]

All-append : (P : ℕ → Type 0) (s : List ℕ) (c : ℕ) → All P s → P c → All P (s ++ c ∷ [])
All-append P [] c h k = (k, tt)
All-append P (d ∷ s) c (hd, h) k = (hd, All-append P s c h k)

All-reverse : (P : ℕ → Type 0) (s : List ℕ) → All P s → All P (reverse s)
All-reverse P [] h = tt
All-reverse P (c ∷ s) (hc, h) = rw reverse-cons (All-append P (reverse s) c (All-reverse P s h) hc)

value_back-letters : (fuel format n : ℕ) → n ≤ fuel → value_back format (letters fuel format n) ≡ n
unfolding letters
value_back-letters zero format n h = omega arith
value_back-letters (suc fuel) format n h = elim (Bool-cases (ltb 0 n)) [
  | inl more ↦
      let (low, le, whole) = last_digit_lem n (ground arith) in
      let ih : value_back format (letters fuel format ((n - last_digit n) / 26))
          ≡ (n - last_digit n) / 26 =
        value_back-letters fuel format ((n - last_digit n) / 26) (omega arith) in
      rw more (omega (arith, letter_digit format (last_digit n) low))
  | inr done ↦ rw done (ground arith)
]

pub length-letters : (fuel format n k : ℕ) → n < 26 ^ k → length (letters fuel format n) ≤ k
unfolding letters
length-letters zero format n k h = omega arith
length-letters (suc fuel) format n zero h = ground arith
length-letters (suc fuel) format n (suc k) h = elim (Bool-cases (ltb 0 n)) [
  | inl more ↦
      let (low, le, whole) = last_digit_lem n (ground arith) in
      let ih : length (letters fuel format ((n - last_digit n) / 26)) ≤ k =
        length-letters fuel format ((n - last_digit n) / 26) k (omega (arith, pow-suc 26 k)) in
      rw more (omega arith)
  | inr done ↦ rw done (omega arith)
]

length-reverse : (s : List ℕ) → length (reverse s) ≡ length s
length-reverse [] = refl
length-reverse (c ∷ s) =
    rw reverse-cons (omega (arith, length-append (reverse s) (c ∷ []), length-reverse s))

-- A positive number is written as letters, all of the case of the format, that spell it where a is 1 and
-- z is 26, of which there are at most seven, and its negative as a minus before the same letters.
pub alphabetic_lem :
    (format n : ℕ)
    → suc n ≤ int_max
    → (s : List ℕ) × (alphabetic format (pos (suc n)) ≡ some s)
      × (alphabetic format (negsuc n) ≡ some (b'-' ∷ s))
      × All (IsLetter format) s
      × (value format 0 s ≡ suc n)
      × (length s ≤ 7)
unfolding alphabetic
alphabetic_lem format n h =
    let s = letters (suc n) format (suc n) in
    (
      reverse s,
      refl,
      ground arith,
      All-reverse (IsLetter format) s (letters-AreLetters (suc n) format (suc n)),
      value-reverse format s ∙ value_back-letters (suc n) format (suc n) (omega arith),
      omega (arith, length-reverse s, length-letters (suc n) format (suc n) 7 (omega arith)),
    )
