-- ===== src/Register/Alphabetic.antt =====
-- The formats 'a' and 'A' of `number_value_to_ascii`: letters, in a system of base 26 with no zero.
pub mod Laws
use groff.Prelude.{
  ℕ, zero, suc, ◌+◌, ◌-◌, ◌*◌, ◌/◌, ◌%◌, Bool, true, false, if◌then◌else◌, ◌==◌, ltb, List, [], ◌∷◌,
  ◌++◌, ℤ, pos, negsuc, Option, none, some, codes,
}
use mathlib.Core.List.{reverse}
use groff.Int32.{int_max}

-- `lowercase_array[d - 1]` or `uppercase_array[d - 1]`.
abbrev pub letter : ℕ → ℕ → ℕ
letter format d = (if format == b'a' then b'a' else b'A') + (d - 1)

-- `while (n > 0)`: the letters from the last to the first. A number has at most as many as it counts.
unfoldable pub letters : ℕ → ℕ → ℕ → List ℕ
letters zero format n = []
letters (suc fuel) format n =
    let d = (if n % 26 == 0 then 26 else n % 26) in
    let rest = letters fuel format ((n - d) / 26) in if ltb 0 n then letter format d ∷ rest else []

-- The loop that swaps the ends reverses the letters, behind the sign. `-n` of INT_MIN is undefined.
unfoldable pub alphabetic : ℕ → ℤ → Option (List ℕ)
alphabetic format (pos zero) = some (codes "0")
alphabetic format (pos (suc n)) = some (reverse (letters (suc n) format (suc n)))
alphabetic format (negsuc n) =
    if n == int_max then none else some (b'-' ∷ reverse (letters (suc n) format (suc n)))
