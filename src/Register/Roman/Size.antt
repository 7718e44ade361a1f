-- ===== src/Register/Roman/Size.antt =====
-- How much of the `scratchpad` a Roman numeral takes.
use native.Mathlib.Nat.{div-one}
use groff.Prelude.{
  ◌↔◌, refl, ℕ, zero, suc, ◌+◌, ◌-◌, ◌*◌, ◌/◌, ◌≤◌, ◌<◌, ◌≡◌, inl, inr, Bool, true, false, List,
  arith, leb, Bool-cases, length, get_or, drop, length-append, pos, negsuc,
}
use groff.Register.Roman.{
  roman_digit, roman_digits, roman_magnitude, roman, ten_thousands, ten_thousands, roman_limit,
  numerals,
}

-- `scratchpad_size` is INT_DIGITS + 1, and INT_DIGITS is 19 in src/include/lib.h.
abbrev pub scratchpad_size : ℕ
scratchpad_size = 20

length-roman_digit :
    (one five ten m : ℕ)
    → (length (roman_digit one five ten m) ≤ 4)
      × ((length (roman_digit one five ten m) ≡ 4) → m ≡ 8)
unfolding roman_digit
length-roman_digit one five ten m = ground arith

length-roman_digits :
    (rounds i : ℕ) (symbols : List ℕ) (n : ℕ)
    → length (roman_digits rounds i symbols n) ≤ 4 * rounds
unfolding roman_digits
length-roman_digits zero i symbols n = omega arith
length-roman_digits (suc rounds) i symbols n =
    let d = roman_digit (get_or symbols 2 0) (get_or symbols 1 0) (get_or symbols 0 0) (n / i) in
    omega (
      arith,
      length-append d (roman_digits rounds (i / 10) (drop 2 symbols) (n - n / i * i)),
      length-roman_digit (get_or symbols 2 0) (get_or symbols 1 0) (get_or symbols 0 0) (n / i),
      length-roman_digits rounds (i / 10) (drop 2 symbols) (n - n / i * i),
    )

ten_thousands-size :
    (rounds symbol n : ℕ)
    → n < 10000 * (rounds + 1)
    → (let t = ten_thousands rounds symbol n in (t.1 < 10000) × (length t.0 * 10000 + t.1 ≡ n))
unfolding ten_thousands
ten_thousands-size zero symbol n h = (omega arith, omega arith)
ten_thousands-size (suc rounds) symbol n h = elim (Bool-cases (leb 10000 n)) [
  | inl big ↦ rw big (ground (arith, ten_thousands-size rounds symbol (n - 10000)))
  | inr small ↦ rw small (ground arith)
]

full_step :
    (rounds i : ℕ) (symbols : List ℕ) (n : ℕ)
    → length (roman_digits (suc rounds) i symbols n) ≡ 4 * suc rounds
    → (n / i ≡ 8)
      × (length (roman_digits rounds (i / 10) (drop 2 symbols) (n - n / i * i)) ≡ 4 * rounds)
full_step rounds i symbols n e =
    let one = get_or symbols 2 0 in
    let five = get_or symbols 1 0 in
    let ten = get_or symbols 0 0 in
    let rest = roman_digits rounds (i / 10) (drop 2 symbols) (n - n / i * i) in
    let whole : length (roman_digits (suc rounds) i symbols n)
        ≡ length (roman_digit one five ten (n / i)) + length rest =
      unfold roman_digits in length-append (roman_digit one five ten (n / i)) rest in
    let d = length-roman_digit one five ten (n / i) in
    let le : length rest ≤ 4 * rounds =
      length-roman_digits rounds (i / 10) (drop 2 symbols) (n - n / i * i) in
    (d.1 (omega arith), omega arith)

-- Four digits that each take four symbols are 8888.
full_digits :
    (symbols : List ℕ) (n : ℕ) → n < 10000 → length (roman_digits 4 1000 symbols n) ≡ 16 → n ≡ 8888
full_digits symbols n h e =
    let (a, e3) = full_step 3 1000 symbols n e in
    let (b, e2) = full_step 2 100 (drop 2 symbols) (n - n / 1000 * 1000) e3 in
    let r2 = n - n / 1000 * 1000 - (n - n / 1000 * 1000) / 100 * 100 in
    let (c, e1) = full_step 1 10 (drop 2 (drop 2 symbols)) r2 e2 in
    let (d, _) = full_step 0 1 (drop 2 (drop 2 (drop 2 symbols))) (r2 - r2 / 10 * 10) e1 in
    omega (arith, div-one (r2 - r2 / 10 * 10))

-- The numeral of 38888 in the compatible mode takes 19 bytes,
longest : (symbols : List ℕ) → length (roman_magnitude true symbols 38888) ≡ 19
unfolding roman_magnitude roman_digits roman_digit ten_thousands
longest symbols = refl

-- and no other.
roman_magnitude-size :
    (compat : Bool) (symbols : List ℕ) (n : ℕ)
    → n < roman_limit compat
    → (length (roman_magnitude compat symbols n) ≤ 19)
      × (length (roman_magnitude compat symbols n) ≡ 19 ↔ (compat ≡ true) × (n ≡ 38888))
unfolding roman_magnitude
roman_magnitude-size false symbols n h =
    let le = length-roman_digits 4 1000 symbols n in
    (omega arith, (λ e. absurd (omega arith), λ (compat, _). absurd (ground arith)))
roman_magnitude-size true symbols n h =
    let t = ten_thousands 4 (get_or symbols 0 0) n in
    let (below, size) = ten_thousands-size 4 (get_or symbols 0 0) n (omega arith) in
    let digits = roman_digits 4 1000 symbols t.1 in
    let le = length-roman_digits 4 1000 symbols t.1 in
    let sum = length-append t.0 digits in
    (
      omega arith,
      (
        λ e.
            let last : t.1 ≡ 8888 = full_digits symbols t.1 below (omega arith) in
            (refl, omega arith),
        λ (_, e). rw e (longest symbols),
      ),
    )

-- The numeral of a value in range, its sign and the final null fit in the scratchpad, but for -38888 in
-- the compatible mode: that value takes one byte more, and no other does.
pub roman-size :
    (compat : Bool) (format n : ℕ)
    → suc n < roman_limit compat
    → (length (roman compat format (pos (suc n))) + 1 ≤ scratchpad_size)
      × (length (roman compat format (negsuc n)) + 1 ≤ scratchpad_size + 1)
      × (length (roman compat format (negsuc n)) + 1 ≡ scratchpad_size + 1
          ↔ (compat ≡ true) × (suc n ≡ 38888))
unfolding roman
roman-size compat format n h =
    let inside : leb (roman_limit compat) (suc n) ≡ false = ground arith in
    let (le, (most, full)) = roman_magnitude-size compat (numerals format) (suc n) h in
    (
      rw inside (omega arith),
      rw inside (omega arith),
      rw inside (λ e. most (omega arith), λ c. let e = full c in omega arith),
    )
