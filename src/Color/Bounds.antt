-- ===== src/Color/Bounds.antt =====
-- The arithmetic on components stays in range, and what the conversions lose.
use Prim.Native.Nat.{min}
use native.Mathlib.Nat.{mul-le-mul, div-le_of_le-mul, div-add-mod, mod-lt, mul_comm}
use groff.Prelude.{
  ℕ, ◌+◌, ◌-◌, ◌*◌, ◌/◌, ◌%◌, ◌^◌, ◌≤◌, ◌<◌, ◌≡◌, refl, inl, inr, false, arith, ltb, ◌==◌,
  Bool-cases,
}
use groff.Color.{max_color_val, plus_u, minus_u, times_u, without_black, less_black}

pub minus_u_lem : (a b : ℕ) → b ≤ a → a < 2 ^ 32 → minus_u a b ≡ a - b
unfolding minus_u
minus_u_lem a b le h = omega arith

-- A product of two components fits in 32 bits.
product_fits_u : (a b : ℕ) → a ≤ max_color_val → b ≤ max_color_val → a * b ≤ 65535 * 65535
product_fits_u a b ha hb = mul-le-mul ha hb

pub times_u_lem : (a b : ℕ) → a ≤ max_color_val → b ≤ max_color_val → times_u a b ≡ a * b
unfolding times_u
times_u_lem a b ha hb = omega (arith, product_fits_u a b ha hb)

pub without_black-le : (x k : ℕ) → without_black x k ≤ max_color_val
unfolding without_black
without_black-le x k = omega arith

-- `y` is `x`, or one less.
abbrev pub IsClose : ℕ → ℕ → Type 0
IsClose y x = (y ≤ x) × (x ≤ y + 1)

-- The quotient that is scaled down by n / 65535 again.
rescaled :
    (n d : ℕ)
    → 0 < n
    → d ≤ n
    → n ≤ max_color_val
    → IsClose (max_color_val * d / n * n / max_color_val) d
rescaled n d positive le h =
    let q = max_color_val * d / n in
    let r1 : max_color_val * d % n < n = mod-lt (max_color_val * d) positive in
    let r2 : q * n % max_color_val < max_color_val = mod-lt (q * n) (omega arith) in
    let e1 = div-add-mod (max_color_val * d) n in
    let e2 = div-add-mod (q * n) max_color_val in let e3 = mul_comm n q in omega arith

-- The scaled quotient is a component.
scaled-le : (n d : ℕ) → 0 < n → d ≤ n → max_color_val * d / n ≤ max_color_val
scaled-le n d positive le = div-le_of_le-mul n (omega arith)

less_black_all : (x : ℕ) → less_black x max_color_val ≡ max_color_val
unfolding less_black
less_black_all x = refl

-- What the two conversions are, without the 32 bits.
less_black_lem :
    (x k : ℕ)
    → k ≤ x
    → x ≤ max_color_val
    → k < max_color_val
    → less_black x k ≡ max_color_val * (x - k) / (max_color_val - k)
unfolding less_black
less_black_lem x k le h below =
    let other : (k == max_color_val) ≡ false = ground arith in
    rw
      (
        other,
        minus_u_lem x k le (omega arith),
        minus_u_lem max_color_val k (omega arith) (omega arith),
        times_u_lem max_color_val (x - k) (omega arith) (omega arith),
      )
      refl

without_black_lem :
    (x k : ℕ)
    → x ≤ max_color_val
    → k ≤ max_color_val
    → without_black x k ≡ min max_color_val (x * (max_color_val - k) / max_color_val + k)
unfolding without_black plus_u
without_black_lem x k h le =
    rw
      (
        minus_u_lem max_color_val k le (omega arith),
        times_u_lem x (max_color_val - k) h (omega arith),
      )
      (let fits = product_fits_u x (max_color_val - k) h (omega arith) in omega arith)

pub less_black-le : (x k : ℕ) → k ≤ x → x ≤ max_color_val → less_black x k ≤ max_color_val
less_black-le x k le h = elim (Bool-cases (ltb k max_color_val)) [
  | inl below ↦
      rw (less_black_lem x k le h (ground arith))
        (scaled-le (max_color_val - k) (x - k) (ground arith) (omega arith))
  | inr all ↦ let e : k ≡ max_color_val = ground arith in rw (e, less_black_all x) (omega arith)
]

-- Taking the black out of a component and putting it back loses at most one.
pub without_black-less_black :
    (x k : ℕ) → k ≤ x → x ≤ max_color_val → IsClose (without_black (less_black x k) k) x
without_black-less_black x k le h = elim (Bool-cases (ltb k max_color_val)) [
  | inl below ↦
      rw
        (
          without_black_lem (less_black x k) k (less_black-le x k le h) (omega arith),
          less_black_lem x k le h (ground arith),
        )
        (let close =
            rescaled (max_color_val - k) (x - k) (ground arith) (omega arith) (omega arith) in
          omega arith)
  | inr all ↦
      let e : k ≡ max_color_val = ground arith in
      rw (without_black_lem (less_black x k) k (less_black-le x k le h) (omega arith), e)
        (omega arith)
]
