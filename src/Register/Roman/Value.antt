-- ===== src/Register/Roman/Value.antt =====
-- Reading a Roman numeral back: a symbol before a greater one is subtracted, any other is added.
use native.Mathlib.Nat.{div-one}
use groff.Prelude.{
  ℕ, zero, suc, ◌+◌, ◌-◌, ◌*◌, ◌/◌, ◌≤◌, ◌<◌, ◌≡◌, refl, Bool, true, false, if◌then◌else◌, ◌==◌,
  leb, ltb, List, [], ◌∷◌, ◌++◌, arith, ◌||◌, pos, negsuc, Bool-cases, inl, inr,
}
use groff.Register.Roman.{
  roman_digit, roman_digits, ten_thousands, roman_magnitude, roman_limit, numerals, roman,
}

-- What a symbol is worth, in either case.
unfoldable pub worth : ℕ → ℕ
worth a =
    if a == b'i' || a == b'I'
    then 1
    else if a == b'v' || a == b'V'
    then 5
    else if a == b'x' || a == b'X'
    then 10
    else if a == b'l' || a == b'L'
    then 50
    else if a == b'c' || a == b'C'
    then 100
    else if a == b'd' || a == b'D'
    then 500
    else if a == b'm' || a == b'M'
    then 1000
    else if a == b'w' || a == b'W'
    then 5000
    else if a == b'z' || a == b'Z'
    then 10000
    else 0

abbrev pub first_worth : List ℕ → ℕ
first_worth [] = 0
first_worth (a ∷ s) = worth a

unfoldable pub roman_value : List ℕ → ℕ
roman_value [] = 0
roman_value (a ∷ s) =
    let rest = roman_value s in
    if ltb (worth a) (first_worth s) then rest - worth a else rest + worth a

-- A digit in units of `u`, before symbols that are worth less than `u` each.
roman_digit-value :
    (one five ten m u : ℕ) (rest : List ℕ)
    → worth one ≡ u
    → worth five ≡ 5 * u
    → worth ten ≡ 10 * u
    → m ≤ 9
    → first_worth rest < u
    → (roman_value (roman_digit one five ten m ++ rest) ≡ m * u + roman_value rest)
      × (first_worth (roman_digit one five ten m ++ rest) < 10 * u)
unfolding roman_digit roman_value
roman_digit-value one five ten m u rest h1 h5 h10 hm hr = ground arith

-- Nine symbols for 10000, 5000, … 1, as the code spells them.
record Numerals : Type 0 where
  z : ℕ
  w : ℕ
  m : ℕ
  d : ℕ
  c : ℕ
  l : ℕ
  x : ℕ
  v : ℕ
  i : ℕ
  worths :
      (worth z ≡ 10000)
      × (worth w ≡ 5000)
      × (worth m ≡ 1000)
      × (worth d ≡ 500)
      × (worth c ≡ 100)
      × (worth l ≡ 50)
      × (worth x ≡ 10)
      × (worth v ≡ 5)
      × (worth i ≡ 1)

abbrev symbols : Numerals → List ℕ
symbols s = s.z ∷ s.w ∷ s.m ∷ s.d ∷ s.c ∷ s.l ∷ s.x ∷ s.v ∷ s.i ∷ []

module _ (s : Numerals) where
  abbrev units : ℕ → List ℕ
  units n = roman_digit s.i s.v s.x (n / 1) ++ []

  abbrev tens : ℕ → List ℕ
  tens n = roman_digit s.x s.l s.c (n / 10) ++ units (n - n / 10 * 10)

  abbrev hundreds : ℕ → List ℕ
  hundreds n = roman_digit s.c s.d s.m (n / 100) ++ tens (n - n / 100 * 100)

  abbrev thousands : ℕ → List ℕ
  thousands n = roman_digit s.m s.w s.z (n / 1000) ++ hundreds (n - n / 1000 * 1000)

  units-value : (n : ℕ) → n < 10 → (roman_value (units n) ≡ n) × (first_worth (units n) < 10)
  unfolding roman_value
  units-value n h =
      let (_, _, _, _, _, _, hx, hv, hi) = s.worths in
      omega (
        arith,
        roman_digit-value s.i s.v s.x (n / 1) 1 [] hi hv hx (omega arith) (omega arith),
        div-one n,
      )

  tens-value : (n : ℕ) → n < 100 → (roman_value (tens n) ≡ n) × (first_worth (tens n) < 100)
  tens-value n h =
      let (_, _, _, _, hc, hl, hx, _, _) = s.worths in
      let rest = units-value (n - n / 10 * 10) (omega arith) in
      omega (
        arith,
        roman_digit-value s.x s.l s.c (n / 10) 10 (units (n - n / 10 * 10)) hx hl hc (omega arith)
            rest.1,
      )

  hundreds-value :
      (n : ℕ) → n < 1000 → (roman_value (hundreds n) ≡ n) × (first_worth (hundreds n) < 1000)
  hundreds-value n h =
      let (_, _, hm, hd, hc, _, _, _, _) = s.worths in
      let rest = tens-value (n - n / 100 * 100) (omega arith) in
      omega (
        arith,
        roman_digit-value s.c s.d s.m (n / 100) 100 (tens (n - n / 100 * 100)) hc hd hm
            (omega arith) rest.1,
      )

  thousands-value :
      (n : ℕ) → n < 10000 → (roman_value (thousands n) ≡ n) × (first_worth (thousands n) < 10000)
  thousands-value n h =
      let (hz, hw, hm, _, _, _, _, _, _) = s.worths in
      let rest = hundreds-value (n - n / 1000 * 1000) (omega arith) in
      omega (
        arith,
        roman_digit-value s.m s.w s.z (n / 1000) 1000 (hundreds (n - n / 1000 * 1000)) hm hw hz
            (omega arith) rest.1,
      )

  roman_digits-value : (n : ℕ) → n < 10000 → roman_value (roman_digits 4 1000 (symbols s) n) ≡ n
  unfolding roman_digits
  roman_digits-value n h = (thousands-value n h).0

  ten_thousands-value :
      (rounds n : ℕ) (rest : List ℕ)
      → n < 10000 * (rounds + 1)
      → first_worth rest ≤ 10000
      → (let t = ten_thousands rounds s.z n in
          (t.1 < 10000)
          × (t.1 ≤ n)
          × (roman_value (t.0 ++ rest) ≡ n - t.1 + roman_value rest)
          × (first_worth (t.0 ++ rest) ≤ 10000))
  unfolding ten_thousands roman_value
  ten_thousands-value zero n rest h hr = (omega arith, omega arith, omega arith, hr)
  ten_thousands-value (suc rounds) n rest h hr =
      let (hz, _, _, _, _, _, _, _, _) = s.worths in
      elim (Bool-cases (leb 10000 n)) [
        | inl big ↦ rw big (ground (arith, ten_thousands-value rounds (n - 10000) rest))
        | inr small ↦ rw small (ground arith)
      ]

  roman_magnitude-value :
      (compat : Bool) (n : ℕ)
      → n < roman_limit compat
      → roman_value (roman_magnitude compat (symbols s) n) ≡ n
  unfolding roman_magnitude
  roman_magnitude-value false n h = roman_digits-value n (omega arith)
  roman_magnitude-value true n h =
      let t = ten_thousands 4 s.z n in
      let rest = roman_digits 4 1000 (symbols s) t.1 in
      let (below, le, _, _) = ten_thousands-value 4 n [] (omega arith) (omega arith) in
      let last : roman_value rest ≡ t.1 = roman_digits-value t.1 below in
      let (_, _, whole, _) =
        ten_thousands-value 4 n rest (omega arith) (omega (arith, (thousands-value t.1 below).1)) in
      omega arith

lower_worths :
    (worth b'z' ≡ 10000)
    × (worth b'w' ≡ 5000)
    × (worth b'm' ≡ 1000)
    × (worth b'd' ≡ 500)
    × (worth b'c' ≡ 100)
    × (worth b'l' ≡ 50)
    × (worth b'x' ≡ 10)
    × (worth b'v' ≡ 5)
    × (worth b'i' ≡ 1)
unfolding worth
lower_worths = (refl, refl, refl, refl, refl, refl, refl, refl, refl)

upper_worths :
    (worth b'Z' ≡ 10000)
    × (worth b'W' ≡ 5000)
    × (worth b'M' ≡ 1000)
    × (worth b'D' ≡ 500)
    × (worth b'C' ≡ 100)
    × (worth b'L' ≡ 50)
    × (worth b'X' ≡ 10)
    × (worth b'V' ≡ 5)
    × (worth b'I' ≡ 1)
unfolding worth
upper_worths = (refl, refl, refl, refl, refl, refl, refl, refl, refl)

abbrev lower : Numerals
lower = record {
  z = b'z';
  w = b'w';
  m = b'm';
  d = b'd';
  c = b'c';
  l = b'l';
  x = b'x';
  v = b'v';
  i = b'i';
  worths = lower_worths;
}

abbrev upper : Numerals
upper = record {
  z = b'Z';
  w = b'W';
  m = b'M';
  d = b'D';
  c = b'C';
  l = b'L';
  x = b'X';
  v = b'V';
  i = b'I';
  worths = upper_worths;
}

roman_magnitude-numerals :
    (compat : Bool) (format n : ℕ)
    → n < roman_limit compat
    → roman_value (roman_magnitude compat (numerals format) n) ≡ n
roman_magnitude-numerals compat format n h = elim (Bool-cases (format == b'i')) [
  | inl small ↦ rw small (roman_magnitude-value lower compat n h)
  | inr capital ↦ rw capital (roman_magnitude-value upper compat n h)
]

-- A number from 1 to below the limit of the mode is written as a Roman numeral that is worth it, in
-- either case and either mode, and its negative as a minus before such a numeral.
pub roman_value-roman :
    (compat : Bool) (format n : ℕ)
    → suc n < roman_limit compat
    → (roman_value (roman compat format (pos (suc n))) ≡ suc n)
      × (s : List ℕ) × (roman compat format (negsuc n) ≡ b'-' ∷ s)
      × (roman_value s ≡ suc n)
unfolding roman
roman_value-roman compat format n h =
    let inside : leb (roman_limit compat) (suc n) ≡ false = ground arith in
    let worth_n = roman_magnitude-numerals compat format (suc n) h in
    (rw inside worth_n, roman_magnitude compat (numerals format) (suc n), rw inside, worth_n)
