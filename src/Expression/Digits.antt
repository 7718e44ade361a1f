-- ===== src/Expression/Digits.antt =====
-- What the loop over digits makes of a number that is too long.
use groff.Prelude.{
  ℕ, suc, ◌+◌, ◌-◌, ◌*◌, ◌≤◌, ◌<◌, ◌≡◌, refl, Bool, true, false, ◌⊎◌, inl, inr, List, [], ◌∷◌,
  length, take, All, leb, Bool-cases, pos, arith, ◌*ℤ◌, ◌+ℤ◌, ◌∙◌, ap,
}
use groff.Int32.{int_max, ckd_add, ckd_mul}
use groff.Expression.Input.{char, Env, Input, eof, tok, cur_ch, csdigit}
use groff.Expression.Number.{Digits, add_digit, read_digits}

abbrev pub IsDigit : ℕ → Type 0
IsDigit d = d ≤ 9

-- The tokens of some digits, before the input `i`.
abbrev pub spell : Env → List ℕ → Input → Input
spell e [] i = i
spell e (d ∷ ds) i = tok (char (b'0' + d)) e (spell e ds i)

-- The number that digits write behind `n`, without a bound.
abbrev pub decimal : ℕ → List ℕ → ℕ
decimal n [] = n
decimal n (d ∷ ds) = decimal (n * 10 + d) ds

abbrev pub state : ℕ → Bool → Digits
state n over = record { value = pos n; is_overflowing = over }

add_digit-fits :
    (n d : ℕ) → n * 10 + d ≤ int_max → add_digit (state n false) d ≡ state (n * 10 + d) false
unfolding add_digit ckd_mul ckd_add ◌*ℤ◌ ◌+ℤ◌
add_digit-fits n d h = ground arith

add_digit_over :
    (n d : ℕ)
    → n ≤ int_max
    → d ≤ 9
    → int_max < n * 10 + d
    → add_digit (state n false) d ≡ state n true
unfolding add_digit ckd_mul ckd_add ◌*ℤ◌ ◌+ℤ◌
add_digit_over n d fits small h = ground arith

pub read_digits_stop :
    (s : Digits) (i : Input) → csdigit (cur_ch i) ≡ false → read_digits s i ≡ (s.value, i)
unfolding read_digits
read_digits_stop s (eof e) h = refl
read_digits_stop s (tok t e i) h = rw h

csdigit_of : (d : ℕ) → IsDigit d → csdigit (b'0' + d) ≡ true
csdigit_of d h = ground arith

module _ (e : Env) (i : Input) (stops : csdigit (cur_ch i) ≡ false) where
  read_digit :
      (s : Digits) (d : ℕ) (j : Input)
      → IsDigit d
      → read_digits s (tok (char (b'0' + d)) e j) ≡ read_digits (add_digit s d) j
  unfolding read_digits
  read_digit s d j h = let same : b'0' + d - b'0' ≡ d = omega arith in rw (csdigit_of d h, same)

  -- Once a digit has not fitted, the rest is skipped.
  read_digits_over :
      (n : ℕ) (ds : List ℕ)
      → All IsDigit ds
      → read_digits (state n true) (spell e ds i) ≡ (pos n, i)
  unfolding add_digit
  read_digits_over n [] h = read_digits_stop (state n true) i stops
  read_digits_over n (d ∷ ds) (hd, h) =
      read_digit (state n true) d (spell e ds i) hd ∙ read_digits_over n ds h

  -- The digits that are kept are the longest prefix whose number is an `int`: they are all digits, or
  -- with the next one the number is beyond INT_MAX.
  pub read_digits-prefix :
      (n : ℕ) (ds : List ℕ)
      → All IsDigit ds
      → n ≤ int_max
      → (k : ℕ) × (read_digits (state n false) (spell e ds i) ≡ (pos (decimal n (take k ds)), i))
        × (decimal n (take k ds) ≤ int_max)
        × ((k ≡ length ds) ⊎ (int_max < decimal n (take (suc k) ds)))
  read_digits-prefix n [] h fits = (0, read_digits_stop (state n false) i stops, fits, inl refl)
  read_digits-prefix n (d ∷ ds) (hd, h) fits = elim (Bool-cases (leb (n * 10 + d) int_max)) [
    | inl room ↦
        let (k, runs, small, last) = read_digits-prefix (n * 10 + d) ds h (ground arith) in
        (
          suc k,
          read_digit (state n false) d (spell e ds i) hd
              ∙ ap (λ s. read_digits s (spell e ds i)) (add_digit-fits n d (ground arith))
              ∙ runs,
          small,
          ground arith,
        )
    | inr over ↦ (
      0,
      read_digit (state n false) d (spell e ds i) hd
          ∙ ap (λ s. read_digits s (spell e ds i)) (add_digit_over n d fits hd (ground arith))
          ∙ read_digits_over n ds h,
      fits,
      inr (ground arith),
    )
  ]

le-decimal : (n : ℕ) (ds : List ℕ) → n ≤ decimal n ds
le-decimal n [] = omega arith
le-decimal n (d ∷ ds) = omega (arith, le-decimal (n * 10 + d) ds)

-- A number that is an `int` is read exactly.
pub read_digits_exact :
    (e : Env) (i : Input) (n : ℕ) (ds : List ℕ)
    → csdigit (cur_ch i) ≡ false
    → All IsDigit ds
    → decimal n ds ≤ int_max
    → read_digits (state n false) (spell e ds i) ≡ (pos (decimal n ds), i)
read_digits_exact e i n [] stops h fits = read_digits_stop (state n false) i stops
read_digits_exact e i n (d ∷ ds) stops (hd, h) fits =
    let room : n * 10 + d ≤ int_max = omega (arith, le-decimal (n * 10 + d) ds) in
    read_digit e i stops (state n false) d (spell e ds i) hd
    ∙ ap (λ s. read_digits s (spell e ds i)) (add_digit-fits n d room)
    ∙ read_digits_exact e i (n * 10 + d) ds stops h fits
