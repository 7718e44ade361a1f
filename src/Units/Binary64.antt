-- ===== src/Units/Binary64.antt =====
-- The product and the quotient of `scale` in IEEE binary64, whose significands have 53 bits, rounded to the
-- nearest and from the middle to the even one: an instance of `Doubles`.
use native.Mathlib.Nat.{div-mul-le_self, lt-div-mul-add, mul-le-mul_right, mul-pos}
use groff.Prelude.{
  ℕ, zero, suc, ◌+◌, ◌-◌, ◌*◌, ◌/◌, ◌%◌, ◌^◌, ◌≤◌, ◌<◌, ◌≡◌, ◌⊎◌, refl, inl, inr, Bool-cases, ltb,
  ◌==◌, if◌then◌else◌, arith,
}
use groff.Units.Scale.{Doubles}

-- The integer that is nearest to a / b.
unfoldable pub nearest_integer : ℕ → ℕ → ℕ
nearest_integer a b =
    let q = a / b in
    let r = a - q * b in
    if ltb (2 * r) b then q else if ltb b (2 * r) then q + 1 else if q % 2 == 0 then q else q + 1

nearest_integer_lem :
    (a b : ℕ)
    → 0 < b
    → (2 * (nearest_integer a b * b) ≤ 2 * a + b) × (2 * a ≤ 2 * (nearest_integer a b * b) + b)
unfolding nearest_integer
nearest_integer_lem a b positive =
    let q = a / b in
    let r = a - q * b in
    let low : q * b ≤ a = div-mul-le_self a b in
    let high : a < q * b + b = lt-div-mul-add positive in
    elim (Bool-cases (ltb (2 * r) b)) [
      | inl below ↦ rw below (ground (arith, low), ground (arith, low))
      | inr not_below ↦ elim (Bool-cases (ltb b (2 * r))) [
        | inl above ↦ rw (not_below, above) (ground (arith, low, high), ground (arith, low, high))
        | inr middle ↦ elim (Bool-cases (q % 2 == 0)) [
          | inl even ↦ rw (not_below, middle, even) (ground (arith, low), ground (arith, low))
          | inr odd ↦ rw (not_below, middle, odd) (ground (arith, low), ground (arith, low))
        ]
      ]
    ]

-- The distance of two doubles near a / b: the least power of two with which the significand is short enough.
unfoldable pub spacing : ℕ → ℕ → ℕ → ℕ → ℕ
spacing zero u a b = u
spacing (suc fuel) u a b =
    let wider = spacing fuel (2 * u) a b in if ltb a (2 ^ 53 * (u * b)) then u else wider

-- It is that of integers, or the significand has all of its bits.
abbrev IsFine : ℕ → ℕ → ℕ → Type 0
IsFine a b u = (0 < u) × ((u ≡ 1) ⊎ (2 ^ 52 * (u * b) ≤ a))

spacing-IsFine : (fuel u a b : ℕ) → IsFine a b u → IsFine a b (spacing fuel u a b)
unfolding spacing
spacing-IsFine zero u a b fine = fine
spacing-IsFine (suc fuel) u a b (positive, fine) = elim (Bool-cases (ltb a (2 ^ 53 * (u * b)))) [
  | inl short ↦ rw short (positive, fine)
  | inr long ↦
      let filled : 2 ^ 53 * (u * b) ≤ a = ground arith in
      rw long (spacing-IsFine fuel (2 * u) a b (omega arith, inr (omega (arith, filled))))
]

-- An error of half a distance between integers is none.
no_error :
    (k p u : ℕ)
    → u ≡ 1
    → 2 * k ≤ 2 * p + u
    → 2 * p ≤ 2 * k + u
    → (k * 2 ^ 53 ≤ p * (2 ^ 53 + 1)) × (p * (2 ^ 53 - 1) ≤ k * 2 ^ 53)
no_error k p u e above below = let same : k ≡ p = omega arith in (omega arith, omega arith)

-- `|n| * double(x)`, where the exact product is below 2^62.
unfoldable pub product64 : ℕ → ℕ → ℕ
product64 m x = let u = spacing 9 1 (m * x) 1 in nearest_integer (m * x) u * u

pub product64_lem :
    (m x : ℕ)
    → (product64 m x * 2 ^ 53 ≤ m * x * (2 ^ 53 + 1))
      × (m * x * (2 ^ 53 - 1) ≤ product64 m x * 2 ^ 53)
unfolding product64
product64_lem m x =
    let (positive, fine) = spacing-IsFine 9 1 (m * x) 1 (omega arith, inl refl) in
    let (above, below) = nearest_integer_lem (m * x) (spacing 9 1 (m * x) 1) positive in
    elim fine [
      | inl ones ↦ no_error _ (m * x) (spacing 9 1 (m * x) 1) ones above below
      | inr filled ↦ (omega arith, omega arith)
    ]

-- The error of a quotient that is rounded and then cut off, in units of 2^-52.
cut_error :
    (p y u n : ℕ)
    → u * y ≤ p
    → 2 * (n * (u * y)) ≤ 2 * (p * 2 ^ 52) + u * y
    → 2 * (p * 2 ^ 52) ≤ 2 * (n * (u * y)) + u * y
    → (n * u / 2 ^ 52 * y * 2 ^ 53 ≤ p * (2 ^ 53 + 1))
      × (p * (2 ^ 53 - 1) ≤ (n * u / 2 ^ 52 + 1) * y * 2 ^ 53)
cut_error p y u n fine above below =
    let r = n * u / 2 ^ 52 in
    let low : r * 2 ^ 52 * y ≤ n * u * y = mul-le-mul_right y (omega arith) in
    let high : n * u * y ≤ (r * 2 ^ 52 + 2 ^ 52) * y = mul-le-mul_right y (omega arith) in
    (omega arith, omega arith)

-- `p / double(y)` cut off, in units of 2^-52 before. What is below 1 stays so, as `y` is an `int`.
unfoldable pub quotient64 : ℕ → ℕ → ℕ
quotient64 p y =
    let a = p * 2 ^ 52 in
    let u = spacing 63 1 a y in if ltb p y then 0 else nearest_integer a (u * y) * u / 2 ^ 52

pub quotient64_lem :
    (p y : ℕ)
    → 0 < y
    → (quotient64 p y * y * 2 ^ 53 ≤ p * (2 ^ 53 + 1))
      × (p * (2 ^ 53 - 1) ≤ (quotient64 p y + 1) * y * 2 ^ 53)
unfolding quotient64
quotient64_lem p y positive = elim (Bool-cases (ltb p y)) [
  | inl small ↦ rw small (omega arith, ground arith)
  | inr large ↦
      let a = p * 2 ^ 52 in
      let u = spacing 63 1 a y in
      let (some_u, fine) = spacing-IsFine 63 1 a y (omega arith, inr (ground arith)) in
      let (above, below) = nearest_integer_lem a (u * y) (mul-pos some_u positive) in
      let filled : u * y ≤ p = elim fine [
        | inl ones ↦ rw ones (ground arith)
        | inr bits ↦ omega (arith, bits)
      ] in
      rw large (cut_error p y u (nearest_integer a (u * y)) filled above below)
]

abbrev pub binary64 : Doubles
binary64 = record {
  product = product64;
  quotient = quotient64;
  product_above = λ m x h k. (product64_lem m x).0;
  product_below = λ m x h k. (product64_lem m x).1;
  quotient_above = λ p y h positive k. (quotient64_lem p y positive).0;
  quotient_below = λ p y h positive k. (quotient64_lem p y positive).1;
}
