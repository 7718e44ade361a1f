-- ===== src/Register/Roman.antt =====
-- The formats 'i' and 'I' of `number_value_to_ascii`: Roman numerals, with w and z for 5000 and 10000
-- in the mode compatible with AT&T troff.
pub mod Value
pub mod Size
use groff.Prelude.{
  ℕ, zero, suc, ◌+◌, ◌-◌, ◌*◌, ◌/◌, ◌%◌, ◌≤◌, Bool, true, false, if◌then◌else◌, ◌==◌, leb, ltb,
  List, [], ◌∷◌, ◌++◌, ℤ, pos, negsuc, Option, none, some, codes, get_or, drop, arith,
}
use groff.Register.Decimal.{i_to_a}

-- The switch over one decimal digit `m`, on the three symbols that it can need.
unfoldable pub roman_digit : ℕ → ℕ → ℕ → ℕ → List ℕ
roman_digit one five ten m =
    if m == 3
    then one ∷ one ∷ one ∷ []
    else if m == 2
    then one ∷ one ∷ []
    else if m == 1
    then one ∷ []
    else if m == 4
    then one ∷ five ∷ []
    else if m == 8
    then five ∷ one ∷ one ∷ one ∷ []
    else if m == 7
    then five ∷ one ∷ one ∷ []
    else if m == 6
    then five ∷ one ∷ []
    else if m == 5
    then five ∷ []
    else if m == 9
    then one ∷ ten ∷ []
    else []

abbrev pub lower_numerals : List ℕ
lower_numerals = codes "zwmdclxvi"

abbrev pub upper_numerals : List ℕ
upper_numerals = codes "ZWMDCLXVI"

-- `for (int i = 1000; i > 0; i /= 10, roman_numerals += 2)`, for what is left of `n`; the symbols begin
-- with that for 10 * i.
unfoldable pub roman_digits : ℕ → ℕ → List ℕ → ℕ → List ℕ
unfolding roman_digit
roman_digits zero i symbols n = []
roman_digits (suc rounds) i symbols n =
    let m = n / i in
    roman_digit (get_or symbols 2 0) (get_or symbols 1 0) (get_or symbols 0 0) m
    ++ roman_digits rounds (i / 10) (drop 2 symbols) (n - m * i)

-- `while (n >= 10000)`, in the compatible mode, where `n` is below 40000.
unfoldable pub ten_thousands : ℕ → ℕ → ℕ → List ℕ × ℕ
ten_thousands zero symbol n = ([], n)
ten_thousands (suc rounds) symbol n =
    let rest = ten_thousands rounds symbol (n - 10000) in
    if leb 10000 n then (symbol ∷ rest.0, rest.1) else ([], n)

unfoldable pub roman_magnitude : Bool → List ℕ → ℕ → List ℕ
unfolding roman_digits ten_thousands
roman_magnitude compat symbols n =
    let (zs, rest) = (if compat then ten_thousands 4 (get_or symbols 0 0) n else ([], n)) in
    zs ++ roman_digits 4 1000 symbols rest

abbrev pub roman_limit : Bool → ℕ
roman_limit compat = if compat then 40000 else 4000

abbrev pub numerals : ℕ → List ℕ
numerals format = if format == b'i' then lower_numerals else upper_numerals

-- The whole case: a value out of range is printed in decimal, behind an error message.
unfoldable pub roman : Bool → ℕ → ℤ → List ℕ
unfolding roman_magnitude
roman compat format (pos zero) = codes "0"
roman compat format (pos (suc n)) =
    if leb (roman_limit compat) (suc n)
    then i_to_a (pos (suc n))
    else roman_magnitude compat (numerals format) (suc n)
roman compat format (negsuc n) =
    if leb (roman_limit compat) (suc n)
    then i_to_a (negsuc n)
    else b'-' ∷ roman_magnitude compat (numerals format) (suc n)
