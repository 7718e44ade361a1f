-- ===== src/Register/Decimal.antt =====
-- Decimal numbers: `i_to_a` of src/libs/libgroff/itoa.c, and the conversion "%.*d" of the C library.
pub mod Laws
use groff.Prelude.{
  ℕ, zero, suc, ◌+◌, ◌-◌, ◌/◌, ◌%◌, Bool, true, false, if◌then◌else◌, ◌==◌, List, [], ◌∷◌, ◌++◌,
  length, replicate, ℤ, pos, negsuc,
}

-- `do { *--p = '0' + i % 10; i /= 10; } while (i != 0)`, with the characters written so far. A number has
-- fewer digits than it counts.
unfoldable pub digits : ℕ → ℕ → List ℕ → List ℕ
digits zero n out = out
digits (suc fuel) n out =
    let out' = (b'0' + n % 10) ∷ out in
    let rest = digits fuel (n / 10) out' in if n / 10 == 0 then out' else rest

unfoldable pub magnitude_to_a : ℕ → List ℕ
magnitude_to_a n = digits (suc n) n []

-- `i_to_a`; the remainder of a negative `i` is not positive, so that '0' - i % 10 is the same digit.
unfoldable pub i_to_a : ℤ → List ℕ
i_to_a (pos n) = magnitude_to_a n
i_to_a (negsuc n) = b'-' ∷ magnitude_to_a (suc n)

-- "%.*d": at least `width` digits behind the sign.
unfoldable pub pad : ℕ → List ℕ → List ℕ
pad width s = replicate (width - length s) b'0' ++ s

unfoldable pub print_width : ℕ → ℤ → List ℕ
print_width width (pos n) = pad width (magnitude_to_a n)
print_width width (negsuc n) = b'-' ∷ pad width (magnitude_to_a (suc n))
