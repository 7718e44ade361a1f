-- ===== src/Register/Decimal/Laws.antt =====
-- Reading a decimal number back.
use native.Mathlib.Nat.{pow-suc}
use Prim.Native.Nat.{max}
use groff.Int32.{IsInt}
use groff.Prelude.{
  ℕ, zero, suc, ◌+◌, ◌-◌, ◌*◌, ◌/◌, ◌%◌, ◌^◌, ◌≤◌, ◌<◌, ◌≡◌, refl, ap, ◌∙◌, inl, inr, List, [], ◌∷◌,
  ◌++◌, arith, ◌==◌, if◌then◌else◌, Bool-cases, length, replicate, length-append, length-replicate,
  All, ℤ, pos, negsuc, minus,
}
use groff.Register.Decimal.{digits, magnitude_to_a, i_to_a, pad, print_width}

-- The number that digits spell behind `n`.
abbrev pub value : ℕ → List ℕ → ℕ
value n [] = n
value n (c ∷ s) = value (n * 10 + (c - b'0')) s

-- The integer that digits spell behind an optional minus.
abbrev pub read_int : List ℕ → ℤ
read_int [] = pos 0
read_int (c ∷ s) = if c == b'-' then minus (value 0 s) else pos (value 0 (c ∷ s))

abbrev IsDigitChar : ℕ → Type 0
IsDigitChar c = (b'0' ≤ c) × (c ≤ b'9')

value-digits : (fuel n : ℕ) (out : List ℕ) → n < fuel → value 0 (digits fuel n out) ≡ value n out
unfolding digits
value-digits zero n out h = absurd (omega arith)
value-digits (suc fuel) n out h = elim (Bool-cases (n / 10 == 0)) [
  | inl last ↦ rw last (ap (λ k. value k out) (ground arith))
  | inr more ↦ rw more (
      value-digits fuel (n / 10) ((b'0' + n % 10) ∷ out) (ground arith)
      ∙ ap (λ k. value k out) (omega arith))
]

digits-All : (fuel n : ℕ) (out : List ℕ) → All IsDigitChar out → All IsDigitChar (digits fuel n out)
unfolding digits
digits-All zero n out h = h
digits-All (suc fuel) n out h =
    let out' = (b'0' + n % 10) ∷ out in
    let h' : All IsDigitChar out' = (omega arith, h) in
    elim (Bool-cases (n / 10 == 0)) [
      | inl last ↦ rw last h'
      | inr more ↦ rw more (digits-All fuel (n / 10) out' h')
    ]

pad-All : (width : ℕ) (s : List ℕ) → All IsDigitChar s → All IsDigitChar (pad width s)
unfolding pad
pad-All width s h = zeros (width - length s)
  where
    zeros : (k : ℕ) → All IsDigitChar (replicate k b'0' ++ s)
    zeros zero = h
    zeros (suc k) = (omega arith, zeros k)

value-pad : (width : ℕ) (s : List ℕ) → value 0 (pad width s) ≡ value 0 s
unfolding pad
value-pad width s = zeros (width - length s)
  where
    zeros : (k : ℕ) → value 0 (replicate k b'0' ++ s) ≡ value 0 s
    zeros zero = refl
    zeros (suc k) = zeros k

value-magnitude_to_a : (n : ℕ) → value 0 (magnitude_to_a n) ≡ n
unfolding magnitude_to_a
value-magnitude_to_a n = value-digits (suc n) n [] (omega arith)

read_int-digits : (s : List ℕ) → All IsDigitChar s → read_int s ≡ pos (value 0 s)
read_int-digits [] h = refl
read_int-digits (c ∷ s) h = ground arith

-- A value that is printed in a width is read back as itself, whatever its sign and the width.
pub read_int-print_width : (width : ℕ) (z : ℤ) → read_int (print_width width z) ≡ z
unfolding print_width magnitude_to_a minus
read_int-print_width width (pos n) =
    read_int-digits _ (pad-All width _ (digits-All (suc n) n [] tt))
    ∙ ap pos (value-pad width _ ∙ value-magnitude_to_a n)
read_int-print_width width (negsuc n) = ap minus (value-pad width _ ∙ value-magnitude_to_a (suc n))

pub read_int-i_to_a : (z : ℤ) → read_int (i_to_a z) ≡ z
unfolding i_to_a magnitude_to_a minus
read_int-i_to_a (pos n) =
    read_int-digits _ (digits-All (suc n) n [] tt) ∙ ap pos (value-magnitude_to_a n)
read_int-i_to_a (negsuc n) = ap minus (value-magnitude_to_a (suc n))

length-digits :
    (fuel n k : ℕ) (out : List ℕ) → n < 10 ^ suc k → length (digits fuel n out) ≤ suc k + length out
unfolding digits
length-digits zero n k out h = omega arith
length-digits (suc fuel) n zero out h = ground arith
length-digits (suc fuel) n (suc k) out h = ground (
  arith,
  length-digits fuel (n / 10) k ((b'0' + n % 10) ∷ out) (omega (arith, pow-suc 10 (suc k))),
)

pub length-magnitude_to_a : (n : ℕ) → n ≤ 2 ^ 31 → length (magnitude_to_a n) ≤ 10
unfolding magnitude_to_a
length-magnitude_to_a n h = omega (arith, length-digits (suc n) n 9 [] (omega arith))

length-pad : (width : ℕ) (s : List ℕ) → length (pad width s) ≤ max width (length s)
unfolding pad
length-pad width s = omega (
  arith,
  length-append (replicate (width - length s) b'0') s,
  length-replicate {A = ℕ} (width - length s) b'0',
)

pub length-print_width :
    (width : ℕ) (z : ℤ) → IsInt z → length (print_width width z) ≤ max width 10 + 1
unfolding print_width
length-print_width width (pos n) h =
    omega (arith, length-pad width (magnitude_to_a n), length-magnitude_to_a n (omega arith))
length-print_width width (negsuc n) h =
    omega (
      arith,
      length-pad width (magnitude_to_a (suc n)),
      length-magnitude_to_a (suc n) (omega arith),
    )

pub length-i_to_a : (z : ℤ) → IsInt z → length (i_to_a z) ≤ 11
unfolding i_to_a
length-i_to_a (pos n) h = omega (arith, length-magnitude_to_a n (omega arith))
length-i_to_a (negsuc n) h = omega (arith, length-magnitude_to_a (suc n) (omega arith))
