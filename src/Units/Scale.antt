-- ===== src/Units/Scale.antt =====
-- `scale` of src/roff/troff/number.cpp: n * x / y, in `int` where the product fits, and else in
-- `double`, which is a parameter.
use Prim.Native.Nat.{min}
use native.Mathlib.Nat.{
  mul-le-mul_right, mul-le-mul, lt-div-mul-add, zero-div, mul-zero, div-le_self, div-mul-le_self,
  le_trans,
}
use groff.Prelude.{
  ◌-◌, ◌<◌, minus, ℕ, zero, suc, mag, minus_parts, minus-quot, Bool-cases, inl, inr, ◌+◌, ◌*◌, ◌/◌,
  ◌^◌, ◌≤◌, ◌≡◌, Bool, true, false, if◌then◌else◌, ◌==◌, leb, ltb_ℤ, arith, ℤ, pos, negsuc,
  pos_part, neg_part, quot, ◌*ℤ◌,
}
use groff.Int32.{int_max, int_min, IsInt}

-- The magnitude of n * x / y, rounded towards zero.
abbrev pub magnitude : ℤ → ℕ → ℕ → ℕ
magnitude (pos m) x y = m * x / y
magnitude (negsuc m) x y = suc m * x / y

-- What the code relies on of IEEE arithmetic in `double`: a product and a quotient have a relative error of
-- at most 2^-53, the unit roundoff, far from the largest and the least double. Rounding is the same for
-- numbers of either sign, so that magnitudes are enough. A product of integers is an integer when it is
-- rounded; the quotient is cut off to an integer here, as by the conversion to `units`.
pub record Doubles : Type 0 where
  pub product : ℕ → ℕ → ℕ
  pub quotient : ℕ → ℕ → ℕ
  pub product_above :
      (m x : ℕ) → m ≤ 2 ^ 31 → x ≤ int_max → product m x * 2 ^ 53 ≤ m * x * (2 ^ 53 + 1)
  pub product_below :
      (m x : ℕ) → m ≤ 2 ^ 31 → x ≤ int_max → m * x * (2 ^ 53 - 1) ≤ product m x * 2 ^ 53
  pub quotient_above :
      (p y : ℕ) → p ≤ 2 ^ 63 → 0 < y → y ≤ int_max → quotient p y * y * 2 ^ 53 ≤ p * (2 ^ 53 + 1)
  pub quotient_below :
      (p y : ℕ)
      → p ≤ 2 ^ 63
      → 0 < y
      → y ≤ int_max
      → p * (2 ^ 53 - 1) ≤ (quotient p y + 1) * y * 2 ^ 53

-- `n * double(x) / double(y)`, cut off.
unfoldable pub muldiv : Doubles → ℤ → ℕ → ℕ → ℤ
muldiv d (pos m) x y = pos (d.quotient (d.product m x) y)
muldiv d (negsuc m) x y = minus (d.quotient (d.product (suc m) x) y)

-- The comparisons of the `double` with INT_MAX and INT_MIN, and the conversion to `units`.
unfoldable pub saturate : ℤ → ℤ
saturate r = if ltb_ℤ (pos int_max) r then pos int_max else if ltb_ℤ r int_min then int_min else r

-- Whether `n * x` fits, by the division that the code makes.
unfoldable pub product_fits : ℤ → ℕ → Bool
product_fits (pos m) x = leb m (int_max / x)
product_fits (negsuc m) x = leb (suc m) (2 ^ 31 / x)

module _ (d : Doubles) where
  -- For x ≥ 0 and y > 0, as the code asserts.
  unfoldable pub scale : ℤ → ℕ → ℕ → ℤ
  scale n x y =
      if x == 0
      then pos 0
      else if product_fits n x
      then quot (n *ℤ pos x) (pos y)
      else saturate (muldiv d n x y)

product_fits-pos : (m x : ℕ) → product_fits (pos m) x ≡ true → m * x ≤ int_max
unfolding product_fits
product_fits-pos m x h = le_trans (grind arith) (div-mul-le_self int_max x)

product_fits-negsuc : (m x : ℕ) → product_fits (negsuc m) x ≡ true → suc m * x ≤ 2 ^ 31
unfolding product_fits
product_fits-negsuc m x h = le_trans (grind arith) (div-mul-le_self (2 ^ 31) x)

abbrev pub HasSign : ℤ → ℤ → Type 0
HasSign (pos m) r = neg_part r ≡ 0
HasSign (negsuc m) r = pos_part r ≡ 0

-- What `scale` promises of its result `r`: it fits, has the sign of `n`, and its magnitude is off by at
-- most one from that of n * x / y, or from INT_MAX if that is smaller.
pub record IsScaled (n : ℤ) (x y : ℕ) (r : ℤ) : Type 0 where
  pub fits : IsInt r
  pub sign : HasSign n r
  pub below : mag r ≤ magnitude n x y + 1
  pub above : min (magnitude n x y) int_max ≤ mag r + 1

saturate-IsInt : (r : ℤ) → IsInt (saturate r)
unfolding saturate
saturate-IsInt r = ground arith

nothing-IsScaled : (n : ℤ) (y : ℕ) → IsScaled n 0 y (pos 0)
nothing-IsScaled (pos m) y = ground (arith, mul-zero m, zero-div y)
nothing-IsScaled (negsuc m) y = ground (arith, mul-zero (suc m), zero-div y)

-- The branch that computes in `int`.
IsScaled-exactly :
    (n : ℤ) (x y : ℕ) → product_fits n x ≡ true → IsScaled n x y (quot (n *ℤ pos x) (pos y))
unfolding quot ◌*ℤ◌
IsScaled-exactly (pos m) x y h = record {
  fits = omega (arith, div-le_self (m * x) y, product_fits-pos m x h);
  sign = omega arith;
  below = omega arith;
  above = omega arith;
}
IsScaled-exactly (negsuc m) x y h = rw minus-quot (record {
  fits =
      omega
        (arith, minus_parts (suc m * x / y), div-le_self (suc m * x) y, product_fits-negsuc m x h);
  sign = omega (arith, minus_parts (suc m * x / y));
  below = omega (arith, minus_parts (suc m * x / y));
  above = omega (arith, minus_parts (suc m * x / y));
})

-- Two relative errors of 2^-53 are less than one in all, for a number up to 2^31.
module _ (p p' r y : ℕ) (positive : 0 < y) where
  not_above :
      (s : ℕ)
      → p' * 2 ^ 53 ≤ p * (2 ^ 53 + 1)
      → r * y * 2 ^ 53 ≤ p' * (2 ^ 53 + 1)
      → s ≤ r
      → s ≤ 2 ^ 31
      → s ≤ p / y + 1
  not_above s e1 e2 le small = elim (Bool-cases (leb s (p / y + 1))) [
    | inl fine ↦ ground arith
    | inr large ↦
        let q = p / y in
        let step : (q + 2) * y ≤ s * y = mul-le-mul_right y (ground arith) in
        let top : s * y ≤ r * y = mul-le-mul_right y le in
        let most : s * y ≤ 2 ^ 31 * y = mul-le-mul_right y small in
        let rest : p < q * y + y = lt-div-mul-add positive in absurd (omega arith)
  ]

  not_below :
      (q : ℕ)
      → p * (2 ^ 53 - 1) ≤ p' * 2 ^ 53
      → p' * (2 ^ 53 - 1) ≤ (r + 1) * y * 2 ^ 53
      → q * y ≤ p
      → q ≤ int_max
      → q ≤ r + 1
  not_below q e1 e2 le small = elim (Bool-cases (leb q (r + 1))) [
    | inl fine ↦ ground arith
    | inr large ↦
        let step : (r + 2) * y ≤ q * y = mul-le-mul_right y (ground arith) in
        let most : q * y ≤ int_max * y = mul-le-mul_right y small in absurd (omega arith)
  ]

-- The branch that computes in `double`: what is not cut off is close.
module _ (d : Doubles) (m x y : ℕ) (m_fits : m ≤ 2 ^ 31) (x_fits : x ≤ int_max) (positive : 0 < y)
    (y_fits : y ≤ int_max) where
  computed : ℕ
  computed = d.quotient (d.product m x) y

  product_fits_double : d.product m x ≤ 2 ^ 63
  product_fits_double =
      let most : m * x ≤ 2 ^ 31 * int_max = mul-le-mul m_fits x_fits in
      omega (arith, d.product_above m x m_fits x_fits)

  close_above : (s : ℕ) → s ≤ computed → s ≤ 2 ^ 31 → s ≤ m * x / y + 1
  unfolding computed
  close_above s =
      not_above (m * x) (d.product m x) (d.quotient (d.product m x) y) y positive s
        (d.product_above m x m_fits x_fits)
        (d.quotient_above (d.product m x) y product_fits_double positive y_fits)

  close_below : min (m * x / y) int_max ≤ computed + 1
  unfolding computed
  close_below =
      let whole : m * x / y * y ≤ m * x = div-mul-le_self (m * x) y in
      let part : min (m * x / y) int_max * y ≤ m * x / y * y = mul-le-mul_right y (omega arith) in
      not_below (m * x) (d.product m x) (d.quotient (d.product m x) y) y positive
        (min (m * x / y) int_max) (d.product_below m x m_fits x_fits)
        (d.quotient_below (d.product m x) y product_fits_double positive y_fits) (omega arith)
        (omega arith)

IsScaled-closely :
    (d : Doubles) (n : ℤ) (x y : ℕ)
    → IsInt n
    → x ≤ int_max
    → 0 < y
    → y ≤ int_max
    → IsScaled n x y (saturate (muldiv d n x y))
unfolding saturate muldiv computed minus
IsScaled-closely d (pos m) x y (h, _) x_fits positive y_fits =
    let r = d.quotient (d.product m x) y in
    let above =
      close_above d m x y (omega arith) x_fits positive y_fits (min r int_max) (omega arith)
        (omega arith) in
    let below = close_below d m x y (omega arith) x_fits positive y_fits in ground arith
IsScaled-closely d (negsuc m) x y (_, h) x_fits positive y_fits =
    let r = d.quotient (d.product (suc m) x) y in
    let above =
      close_above d (suc m) x y (omega arith) x_fits positive y_fits (min r (2 ^ 31)) (omega arith)
        (omega arith) in
    let below = close_below d (suc m) x y (omega arith) x_fits positive y_fits in
    ground (arith, minus_parts r)

suc_nonzero : (x : ℕ) → (suc x == 0) ≡ false
suc_nonzero x = ground arith

-- The result is an `int` whatever the accuracy of a `double` is.
pub scale-IsInt : (d : Doubles) (n : ℤ) (x y : ℕ) → IsInt (scale d n x y)
unfolding scale
scale-IsInt d n zero y = ground arith
scale-IsInt d n (suc x) y = elim (Bool-cases (product_fits n (suc x))) [
  | inl e ↦ rw (suc_nonzero x, e) (IsScaled-exactly n (suc x) y e).fits
  | inr e ↦ rw (suc_nonzero x, e) (saturate-IsInt (muldiv d n (suc x) y))
]

-- Scaling an `int` by the ratio of one that is not negative to one that is positive never wraps around: the result is an `int` with
-- the sign of n or 0, and its magnitude is that of n * x / y to within one, cut off at INT_MAX, on the exact branch and on the floating
-- one, where a product and a quotient in `double` have a relative error of at most 2^-53.
pub scale-IsScaled :
    (d : Doubles) (n : ℤ) (x y : ℕ)
    → IsInt n
    → x ≤ int_max
    → 0 < y
    → y ≤ int_max
    → IsScaled n x y (scale d n x y)
unfolding scale
scale-IsScaled d n zero y h x_fits positive y_fits = nothing-IsScaled n y
scale-IsScaled d n (suc x) y h x_fits positive y_fits = elim (Bool-cases (product_fits n (suc x))) [
  | inl e ↦ rw (suc_nonzero x, e) (IsScaled-exactly n (suc x) y e)
  | inr e ↦ rw (suc_nonzero x, e) (IsScaled-closely d n (suc x) y h x_fits positive y_fits)
]
