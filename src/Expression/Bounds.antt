-- ===== src/Expression/Bounds.antt =====
-- Every reader ends, returns an `int`, and never puts a token back.
use groff.Prelude.{
  ℕ, suc, ◌-◌, ◌*◌, ◌/◌, ◌≤◌, ◌<◌, ◌≡◌, refl, Bool, true, false, ◌||◌, if◌then◌else◌, ◌==◌,
  Bool-cases, inl, inr, Option, none, some, ℤ, ◌+ℤ◌, pos, negsuc, arith, minus_parts, quot, leb,
  not,
}
use native.Mathlib.Nat.{div-le_self}
use groff.Prelude.Maybe.{◌>>=◌ as ◌>>=?◌}
use groff.Units.Scale.{scale-IsInt}
use groff.Int32.{int_max, IsInt, wrap-IsInt, ckd_add, ckd_mul}
use groff.Expression.Input.{
  Env, Input, eof, tok, cur_ch, next, skip_spaces, size, Outcome, accepted, rejected, undefined,
  starved, ◌>>=◌, csdigit, ch, is_tab,
}
use groff.Expression.Number.{
  Device, Digits, Fraction, read_signs, read_digits, add_digit, read_fraction, add_decimal,
  has_room, apply_unit, scale_asserting,
}

-- An outcome whose value has `P`, with at most `n` tokens left, and that is not out of fuel.
abbrev pub Post : {A : Type 0} → (A → Type 0) → ℕ → Outcome A → Type 0
Post P n (accepted a i) = P a × (size i ≤ n)
Post P n (rejected i) = size i ≤ n
Post P n undefined = Unit
Post P n starved = ⊥

pub Post-bind :
    {A B : Type 0} (P : A → Type 0) (Q : B → Type 0) (n : ℕ) (o : Outcome A)
    (f : A → Input → Outcome B)
    → Post P n o
    → ((a : A) (i : Input) → P a → size i ≤ n → Post Q n (f a i))
    → Post Q n (o >>= f)
Post-bind P Q n (accepted a i) f (h, le) k = k a i h le
Post-bind P Q n (rejected i) f h k = h
Post-bind P Q n undefined f h k = tt
Post-bind P Q n starved f h k = h

pub Post-weaken :
    {A : Type 0} (P : A → Type 0) {m n : ℕ} (o : Outcome A) → m ≤ n → Post P m o → Post P n o
Post-weaken P (accepted a i) le (h, k) = (h, omega arith)
Post-weaken P (rejected i) le h = omega arith
Post-weaken P undefined le h = tt
Post-weaken P starved le h = h

pub Post-if :
    {A : Type 0} (P : A → Type 0) (n : ℕ) (b : Bool) (x y : Outcome A)
    → Post P n x
    → Post P n y
    → Post P n (if b then x else y)
Post-if P n true x y hx hy = hx
Post-if P n false x y hx hy = hy

pub Post-test :
    {A : Type 0} (P : A → Type 0) (n : ℕ) (b : Bool) (x y : Outcome A)
    → (b ≡ true → Post P n x)
    → (b ≡ false → Post P n y)
    → Post P n (if b then x else y)
Post-test P n true x y hx hy = hx refl
Post-test P n false x y hx hy = hy refl

pub size-skip_spaces : (i : Input) → size (skip_spaces i) ≤ size i
unfolding skip_spaces
size-skip_spaces (eof e) = omega arith
size-skip_spaces (tok t e i) = ground (arith, size-skip_spaces i)

pub size-next : (i : Input) → size (next i) ≤ size i
size-next (eof e) = omega arith
size-next (tok t e i) = omega arith

-- A character that is not 0 is a token.
pub size-next-lt : (i : Input) → 0 < cur_ch i → size (next i) < size i
size-next-lt (eof e) h = elim h [ ]
size-next-lt (tok t e i) h = omega arith

pub read_signs-Post :
    (paren b : Bool) (i : Input) → Post (λ _. Unit {0}) (size i) (read_signs paren b i)
unfolding read_signs
read_signs-Post paren b (eof e) = (tt, omega arith)
read_signs-Post paren b (tok t e i) =
    let P : Bool → Type 0 = λ _. Unit in
    Post-if P _ _ _ _
      (Post-weaken P _ (omega arith) (read_signs-Post paren (if ch t == b'-' then not b else b) i))
      (Post-if P _ (is_tab t) _ _ (omega arith) (tt, omega arith))

pub add_digit-IsInt : (s : Digits) (d : ℕ) → IsInt s.value → IsInt (add_digit s d).value
unfolding add_digit ckd_add
add_digit-IsInt s d h = grind (arith, wrap-IsInt ((ckd_mul s.value (pos 10)).wrapped +ℤ pos d))

pub read_digits-IsInt :
    (s : Digits) (i : Input)
    → IsInt s.value
    → IsInt (read_digits s i).0 × (size (read_digits s i).1 ≤ size i)
unfolding read_digits
read_digits-IsInt s (eof e) h = (h, omega arith)
read_digits-IsInt s (tok t e i) h = elim (Bool-cases (csdigit (ch t))) [
  | inl yes_digit ↦
      rw yes_digit
        (omega (arith, read_digits-IsInt (add_digit s (ch t - b'0')) i (add_digit-IsInt s _ h)))
  | inr no_digit ↦ rw no_digit (h, omega arith)
]

add_decimal-IsInt : (s : Fraction) (d : ℕ) → d ≤ 9 → IsInt s.value → IsInt (add_decimal s d).value
unfolding add_decimal has_room
add_decimal-IsInt s d small h = ground arith

pub read_fraction-IsInt :
    (s : Fraction) (i : Input)
    → IsInt s.value
    → IsInt (read_fraction s i).0.value × (size (read_fraction s i).1 ≤ size i)
unfolding read_fraction
read_fraction-IsInt s (eof e) h = (h, omega arith)
read_fraction-IsInt s (tok t e i) h = elim (Bool-cases (csdigit (ch t))) [
  | inl is_digit ↦ rw is_digit (
      omega (
        arith,
        read_fraction-IsInt (add_decimal s (ch t - b'0')) i
            (add_decimal-IsInt s (ch t - b'0') (ground arith) h),
      ))
  | inr no_digit ↦ rw no_digit (h, omega arith)
]

-- What a step of the arithmetic gives, if it gives something.
abbrev pub Given : Option ℤ → Type 0
Given none = Unit
Given (some v) = IsInt v

Given-if : (b : Bool) (x y : Option ℤ) → Given x → Given y → Given (if b then x else y)
Given-if true x y hx hy = hx
Given-if false x y hx hy = hy

Given-bind : (o : Option ℤ) (f : ℤ → Option ℤ) → ((a : ℤ) → Given (f a)) → Given (o >>=? f)
Given-bind none f h = tt
Given-bind (some a) f h = h a

quot-IsInt : (u : ℤ) (d : ℕ) → IsInt u → IsInt (quot u (pos d))
unfolding quot
quot-IsInt (pos a) d h = omega (arith, div-le_self a d)
quot-IsInt (negsuc a) d h = omega (arith, div-le_self (suc a) d, minus_parts (suc a / d))

module _ (dev : Device) where
  scale_asserting-Given : (n x : ℤ) (y : ℕ) → Given (scale_asserting dev n x y)
  unfolding scale_asserting
  scale_asserting-Given n (negsuc x) y = tt
  scale_asserting-Given n (pos x) y = Given-if (y == 0) none _ tt (scale-IsInt dev.doubles n x y)

  pub apply_unit-Given :
      (e : Env) (si : ℕ) (u : ℤ) (divisor : ℕ) → IsInt u → Given (apply_unit dev e si u divisor)
  unfolding apply_unit
  apply_unit-Given e si u divisor h =
      let scaled = scale_asserting-Given in
      Given-if (si == b'i') _ _ (scaled u _ _) (
        Given-if (si == b'c') _ _
          (Given-if (leb (dev.units_per_inch * 100) int_max) _ none (scaled u _ _) tt)
          (Given-if (si == 0 || si == b'u') _ _ (ground (arith, quot-IsInt u divisor h)) (
            Given-if (si == b'f') _ _ (scaled u _ _) (
              Given-if (si == b'p') _ _ (scaled u _ _) (
                Given-if (si == b'P') _ _ (scaled u _ _) (
                  Given-if (si == b'm') _ _ (Given-bind _ _ (λ em. scaled u em _)) (
                    Given-if (si == b'M') _ _ (Given-bind _ _ (λ em. scaled u em _)) (
                      Given-if (si == b'n') _ _ (Given-bind _ _ (λ em. scaled u em _)) (
                        Given-if (si == b'v') _ _ (scaled u _ _) (
                          Given-if (si == b's') _ _ (scaled _ _ _)
                            (Given-if (si == b'z') _ none (scaled u _ _) tt)))))))))))
