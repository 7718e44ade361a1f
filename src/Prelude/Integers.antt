-- ===== src/Prelude/Integers.antt =====
-- Signed integers over the native numbers, under the library's names (its ℤ stands on the unary ℕ),
-- with the division of C, which truncates towards zero.
use Prim.Native.Nat.{ℕ, zero, suc, ◌+◌, ◌-◌, ◌*◌, ◌/◌, ◌%◌, ◌≤◌, ◌<◌}
use mathlib.Core.Path.{◌≡◌, refl}
use mathlib.Core.Bool.{Bool}
use native.Mathlib.Omega.{arith}
use native.Mathlib.Nat.{zero-div}
use groff.Prelude.Tests.{ltb, leb, ◌==◌, if◌then◌else◌}

-- `negsuc n` is -(n + 1).
pub data ℤ : Type 0 where
  pos : ℕ → ℤ
  negsuc : ℕ → ℤ

abbrev pub pos_part : ℤ → ℕ
pos_part (pos n) = n
pos_part (negsuc n) = 0

abbrev pub neg_part : ℤ → ℕ
neg_part (pos n) = 0
neg_part (negsuc n) = suc n

-- a - b, as an integer.
abbrev pub sub_ℕ : ℕ → ℕ → ℤ
sub_ℕ a b = if leb b a then pos (a - b) else negsuc (b - a - 1)

infixl 65 ◌+ℤ◌ ◌-ℤ◌
infixl 70 ◌*ℤ◌
infix 50 ◌≤ℤ◌ ◌<ℤ◌
unfoldable pub ◌+ℤ◌ : ℤ → ℤ → ℤ
a +ℤ b = sub_ℕ (pos_part a + pos_part b) (neg_part a + neg_part b)

unfoldable pub ◌-ℤ◌ : ℤ → ℤ → ℤ
a -ℤ b = sub_ℕ (pos_part a + neg_part b) (neg_part a + pos_part b)

-- -n
unfoldable pub minus : ℕ → ℤ
minus zero = pos 0
minus (suc n) = negsuc n

unfoldable pub neg : ℤ → ℤ
neg (pos n) = minus n
neg (negsuc n) = pos (suc n)

unfoldable pub ◌*ℤ◌ : ℤ → ℤ → ℤ
pos a *ℤ pos b = pos (a * b)
pos a *ℤ negsuc b = minus (a * suc b)
negsuc a *ℤ pos b = minus (suc a * b)
negsuc a *ℤ negsuc b = pos (suc a * suc b)

-- C's `/` and `%`, for a divisor that is not zero: the quotient is truncated, and the remainder
-- has the sign of the dividend.
unfoldable pub quot : ℤ → ℤ → ℤ
quot (pos a) (pos b) = pos (a / b)
quot (pos a) (negsuc b) = minus (a / suc b)
quot (negsuc a) (pos b) = minus (suc a / b)
quot (negsuc a) (negsuc b) = pos (suc a / suc b)

unfoldable pub rem : ℤ → ℤ → ℤ
rem (pos a) (pos b) = pos (a % b)
rem (pos a) (negsuc b) = pos (a % suc b)
rem (negsuc a) (pos b) = minus (suc a % b)
rem (negsuc a) (negsuc b) = minus (suc a % suc b)

abbrev pub ◌≤ℤ◌ : ℤ → ℤ → Type 0
a ≤ℤ b = pos_part a + neg_part b ≤ pos_part b + neg_part a

abbrev pub ◌<ℤ◌ : ℤ → ℤ → Type 0
a <ℤ b = pos_part a + neg_part b < pos_part b + neg_part a

abbrev pub ltb_ℤ : ℤ → ℤ → Bool
ltb_ℤ a b = ltb (pos_part a + neg_part b) (pos_part b + neg_part a)

abbrev pub leb_ℤ : ℤ → ℤ → Bool
leb_ℤ a b = leb (pos_part a + neg_part b) (pos_part b + neg_part a)

abbrev pub eq_ℤ : ℤ → ℤ → Bool
eq_ℤ a b = (pos_part a + neg_part b) == (pos_part b + neg_part a)

-- One lemma for each operation lets `omega` work with the operations shut.
pub +ℤ_parts :
    (a b : ℤ)
    → pos_part (a +ℤ b) + neg_part a + neg_part b ≡ neg_part (a +ℤ b) + pos_part a + pos_part b
unfolding ◌+ℤ◌
+ℤ_parts a b = ground arith

pub -ℤ_parts :
    (a b : ℤ)
    → pos_part (a -ℤ b) + neg_part a + pos_part b ≡ neg_part (a -ℤ b) + pos_part a + neg_part b
unfolding ◌-ℤ◌
-ℤ_parts a b = ground arith

pub minus_parts : (n : ℕ) → (pos_part (minus n) ≡ 0) × (neg_part (minus n) ≡ n)
unfolding minus
minus_parts zero = (refl, refl)
minus_parts (suc n) = (refl, refl)

pub minus_eq : (a : ℤ) → pos_part a ≡ 0 → a ≡ minus (neg_part a)
unfolding minus
minus_eq (pos n) h = ground arith
minus_eq (negsuc n) h = refl

pub neg_parts : (a : ℤ) → (pos_part (neg a) ≡ neg_part a) × (neg_part (neg a) ≡ pos_part a)
unfolding neg
neg_parts (pos n) = minus_parts n
neg_parts (negsuc n) = (refl, refl)

pub neg-minus : (n : ℕ) → neg (minus n) ≡ pos n
unfolding neg minus
neg-minus zero = refl
neg-minus (suc n) = refl

pub eq_of_parts : (a b : ℤ) → pos_part a + neg_part b ≡ pos_part b + neg_part a → a ≡ b
eq_of_parts a b h = ground arith

pub ruleset int_laws = (arith, +ℤ_parts, -ℤ_parts, neg_parts, minus_parts, eq_of_parts)

-- The magnitude of an integer.
abbrev pub mag : ℤ → ℕ
mag a = pos_part a + neg_part a

-- The magnitudes of a product, a quotient and a remainder.
pub mag-*ℤ : (a b : ℤ) → mag (a *ℤ b) ≡ mag a * mag b
unfolding ◌*ℤ◌
mag-*ℤ (pos a) (pos b) = grind arith
mag-*ℤ (pos a) (negsuc b) = grind (arith, minus_parts (a * suc b))
mag-*ℤ (negsuc a) (pos b) = grind (arith, minus_parts (suc a * b))
mag-*ℤ (negsuc a) (negsuc b) = grind arith

pub mag-quot : (a b : ℤ) → mag (quot a b) ≡ mag a / mag b
unfolding quot
mag-quot (pos a) (pos b) = grind arith
mag-quot (pos a) (negsuc b) = grind (arith, minus_parts (a / suc b))
mag-quot (negsuc a) (pos b) = grind (arith, minus_parts (suc a / b))
mag-quot (negsuc a) (negsuc b) = grind arith

pub mag-rem : (a b : ℤ) → mag (rem a b) ≡ mag a % mag b
unfolding rem
mag-rem (pos a) (pos b) = grind arith
mag-rem (pos a) (negsuc b) = grind arith
mag-rem (negsuc a) (pos b) = grind (arith, minus_parts (suc a % b))
mag-rem (negsuc a) (negsuc b) = grind (arith, minus_parts (suc a % suc b))

-- The product and the quotient of a negative number by a positive one.
pub minus-*ℤ : (a b : ℕ) → minus a *ℤ pos b ≡ minus (a * b)
unfolding ◌*ℤ◌ minus
minus-*ℤ zero b = ground arith
minus-*ℤ (suc a) b = refl

pub minus-quot : (a b : ℕ) → quot (minus a) (pos b) ≡ minus (a / b)
unfolding quot minus
minus-quot zero b = rw zero-div
minus-quot (suc a) b = refl
