-- ===== src/Color/Encoding/Laws.antt =====
-- Reading what was written, and the range of what is read.
use native.Mathlib.Nat.{pow-suc, mul-le-mul}
use groff.Prelude.{
  ℕ, zero, suc, ◌+◌, ◌-◌, ◌*◌, ◌/◌, ◌%◌, ◌^◌, ◌≤◌, ◌<◌, ◌≡◌, ◌⊎◌, refl, sym, ap, ◌∙◌, inl, inr,
  Bool, true, false, none, some, List, [], ◌∷◌, ◌++◌, arith, ltb, ◌==◌, if◌then◌else◌, Bool-cases,
  Option-cases, codes, get_or, drop,
}
use groff.Characters.{csxdigit}
use groff.Color.{ColorScheme, default, cmy, cmyk, rgb, gray, Color, max_color_val, plus_u, times_u}
use groff.Color.Schemes.{AreInRange}
use groff.Color.Encoding.{
  digit_value, atoh, set_component, read_components, read_encoding, read_rgb,
}

digit_value-lt : (c : ℕ) → csxdigit c ≡ true → digit_value c < 16
unfolding digit_value
digit_value-lt c h = ground arith

shift_lem : (v d : ℕ) → v < 2 ^ 28 → d < 16 → plus_u (times_u v 16) d ≡ v * 16 + d
unfolding plus_u times_u
shift_lem v d hv hd = omega arith

pow-positive : (n : ℕ) → 1 ≤ 16 ^ n
pow-positive zero = omega arith
pow-positive (suc n) = omega (arith, pow-suc 16 n, pow-positive n)

-- A string of n hexadecimal digits behind a value below b is a number below b * 16 ^ n.
atoh-lt :
    (n : ℕ) (s : List ℕ) (val b r : ℕ)
    → val < b
    → b * 16 ^ n ≤ 2 ^ 32
    → atoh n s val ≡ some r
    → r < b * 16 ^ n
unfolding atoh
atoh-lt zero s val b r h le e = ground arith
atoh-lt (suc n) [] val b r h le e = absurd (ground arith)
atoh-lt (suc n) (c ∷ s) val b r h le e = elim (Bool-cases (csxdigit c)) [
  | inl hex ↦
      let room : b * 16 * 1 ≤ b * 16 * 16 ^ n =
        mul-le-mul {n₁ = b * 16} (omega arith) (pow-positive n) in
      let next : b * 16 ^ suc n ≡ b * 16 * 16 ^ n = rw (pow-suc 16 n) (grind arith) in
      let d = digit_value-lt c hex in
      let v = shift_lem val (digit_value c) (omega arith) d in
      let rest : atoh n s (plus_u (times_u val 16) (digit_value c)) ≡ some r =
        ground (arith, e, hex) in
      rw next (
        atoh-lt n s (plus_u (times_u val 16) (digit_value c)) (b * 16) r (omega arith) (omega arith)
          rest)
  | inr other ↦ absurd (ground (arith, e))
]

-- The character of a digit, in lower case as in upper case.
abbrev pub hex_char : ℕ → ℕ → ℕ
hex_char a d = if ltb d 10 then b'0' + d else a + (d - 10)

-- The four digits of a component.
abbrev pub written : ℕ → ℕ → List ℕ
written a v =
    hex_char a (v / 4096)
    ∷ hex_char a (v / 256 % 16)
    ∷ hex_char a (v / 16 % 16)
    ∷ hex_char a (v % 16)
    ∷ []

digit_read :
    (a d : ℕ)
    → (a ≡ b'a') ⊎ (a ≡ b'A')
    → d < 16
    → (csxdigit (hex_char a d) ≡ true) × (digit_value (hex_char a d) ≡ d)
unfolding digit_value
digit_read a d h lt = ground arith

-- One digit of a number.
atoh_digit :
    (a d n : ℕ) (s : List ℕ) (val : ℕ)
    → (a ≡ b'a') ⊎ (a ≡ b'A')
    → d < 16
    → val < 2 ^ 28
    → atoh (suc n) (hex_char a d ∷ s) val ≡ atoh n s (val * 16 + d)
unfolding atoh
atoh_digit a d n s val case lt small =
    let (hex, same) = digit_read a d case lt in rw (hex, same, shift_lem val d small lt) refl

atoh_end : (s : List ℕ) (v w : ℕ) → v ≡ w → atoh 0 s v ≡ some w
unfolding atoh
atoh_end s v w e = ap some e

atoh-written :
    (a v : ℕ) (s : List ℕ)
    → (a ≡ b'a') ⊎ (a ≡ b'A')
    → v ≤ max_color_val
    → atoh 4 (written a v ++ s) 0 ≡ some v
atoh-written a v s case le =
    atoh_digit a (v / 4096) 3 _ 0 case (omega arith) (omega arith)
    ∙ atoh_digit a (v / 256 % 16) 2 _ (0 * 16 + v / 4096) case (omega arith) (omega arith)
    ∙ atoh_digit a (v / 16 % 16) 1 _ _ case (omega arith) (omega arith)
    ∙ atoh_digit a (v % 16) 0 s _ case (omega arith) (omega arith)
    ∙ atoh_end s _ v (omega arith)

-- One round of the loop, where the component is accepted.
read_component_some :
    (hex_length i n : ℕ) (p : List ℕ) (c : Color) (v : ℕ)
    → atoh hex_length p 0 ≡ some v
    → read_components hex_length i (suc n) p c
      ≡ read_components hex_length
          (suc i)
          n
          (drop hex_length p)
          (set_component i (if hex_length == 2 then times_u v 257 else v) c)
unfolding read_components
read_component_some hex_length i n p c v e = rw e refl

read_component :
    (a v i n : ℕ) (s : List ℕ) (c : Color)
    → (a ≡ b'a') ⊎ (a ≡ b'A')
    → v ≤ max_color_val
    → read_components 4 i (suc n) (written a v ++ s) c
      ≡ read_components 4 (suc i) n s (set_component i v c)
read_component a v i n s c case le =
    read_component_some 4 i n (written a v ++ s) c v (atoh-written a v s case le)

read_no_component : (i : ℕ) (s : List ℕ) (c : Color) → read_components 4 i 0 s c ≡ (c, true)
unfolding read_components
read_no_component i s c = refl

-- A color of RGB that is written as `##` and four hexadecimal digits for each component, in lower or
-- upper case, is read back, over whatever color was there.
pub read_rgb-written :
    (a r g b : ℕ) (c : Color)
    → (a ≡ b'a') ⊎ (a ≡ b'A')
    → r ≤ max_color_val
    → g ≤ max_color_val
    → b ≤ max_color_val
    → read_rgb (codes "##" ++ written a r ++ written a g ++ written a b) c
      ≡ (record c { scheme = rgb; c0 = r; c1 = g; c2 = b }, true)
unfolding read_encoding
read_rgb-written a r g b c case hr hg hb =
    read_component a r 0 2 _ _ case hr
    ∙ read_component a g 1 1 _ _ case hg
    ∙ read_component a b 2 0 [] _ case hb
    ∙ read_no_component 3 [] _

abbrev scaled : ℕ → ℕ → ℕ
scaled hex_length v = if hex_length == 2 then times_u v 257 else v

-- What the loop stores is in range, with two digits to a component as with four.
abbrev IsLength : ℕ → Type 0
IsLength n = (p : List ℕ) (v : ℕ) → atoh n p 0 ≡ some v → scaled n v ≤ max_color_val

two-IsLength : IsLength 2
unfolding times_u
two-IsLength p v e = omega (arith, atoh-lt 2 p 0 1 v (omega arith) (omega arith) e)

four-IsLength : IsLength 4
four-IsLength p v e = omega (arith, atoh-lt 4 p 0 1 v (omega arith) (omega arith) e)

refused_lem : (c d : Color) → ◌≡◌ {A = Color × Bool} (c, false) (d, true) → ⊥
refused_lem c d e = absurd (ground (arith, ap (λ q. q.1) e))

-- An accepted component is in range, and the rest is accepted too.
read_component_none :
    (hex_length i n : ℕ) (p : List ℕ) (c : Color)
    → atoh hex_length p 0 ≡ none
    → read_components hex_length i (suc n) p c ≡ (c, false)
unfolding read_components
read_component_none hex_length i n p c e = rw e refl

read_component_cases :
    (hex_length i n : ℕ) (p : List ℕ) (c d : Color)
    → IsLength hex_length
    → read_components hex_length i (suc n) p c ≡ (d, true)
    → (v : ℕ) × (v ≤ max_color_val)
      × (read_components hex_length (suc i) n (drop hex_length p) (set_component i v c) ≡ (d, true))
read_component_cases hex_length i n p c d small e = elim (Option-cases (atoh hex_length p 0)) [
  | inl refused ↦
      absurd (refused_lem c d (sym (read_component_none hex_length i n p c refused) ∙ e))
  | inr (v, accepted) ↦ (
    scaled hex_length v,
    small p v accepted,
    sym (read_component_some hex_length i n p c v accepted) ∙ e,
  )
]

after :
    (hex_length i : ℕ) (p : List ℕ) (c d : Color)
    → read_components hex_length i 0 p c ≡ (d, true)
    → c ≡ d
unfolding read_components
after hex_length i p c d e = ap (λ q. q.0) e

-- The components of each scheme.
abbrev pub components_of : ColorScheme → ℕ
components_of default = 0
components_of gray = 1
components_of cmyk = 4
components_of _ = 3

module _ (hex_length : ℕ) (small : IsLength hex_length) where
  three_in_range :
      (s : ColorScheme) (p : List ℕ) (c d : Color)
      → read_components hex_length 0 3 p c ≡ (d, true)
      → (d.c0 ≤ max_color_val) × (d.c1 ≤ max_color_val) × (d.c2 ≤ max_color_val)
  three_in_range s p c d e =
      let (u, hu, e1) = read_component_cases hex_length 0 2 p c d small e in
      let (v, hv, e2) = read_component_cases hex_length 1 1 _ _ d small e1 in
      let (w, hw, e3) = read_component_cases hex_length 2 0 _ _ d small e2 in
      rw (sym (after hex_length 3 _ _ d e3)) (hu, hv, hw)

  in_range_lem :
      (s : ColorScheme) (p : List ℕ) (c d : Color)
      → read_components hex_length 0 (components_of s) p c ≡ (d, true)
      → AreInRange s d
  in_range_lem default p c d e = tt
  in_range_lem rgb p c d e = three_in_range rgb p c d e
  in_range_lem cmy p c d e = three_in_range cmy p c d e
  in_range_lem gray p c d e =
      let (u, hu, e1) = read_component_cases hex_length 0 0 p c d small e in
      rw (sym (after hex_length 1 _ _ d e1)) hu
  in_range_lem cmyk p c d e =
      let (u, hu, e1) = read_component_cases hex_length 0 3 p c d small e in
      let (v, hv, e2) = read_component_cases hex_length 1 2 _ _ d small e1 in
      let (w, hw, e3) = read_component_cases hex_length 2 1 _ _ d small e2 in
      let (k, hk, e4) = read_component_cases hex_length 3 0 _ _ d small e3 in
      rw (sym (after hex_length 4 _ _ d e4)) (hu, hv, hw, hk)

-- A color that is read with success has components in range, in each scheme and in both forms.
pub read_encoding-AreInRange :
    (s : ColorScheme) (text : List ℕ) (c d : Color)
    → read_encoding s (components_of s) text c ≡ (d, true)
    → AreInRange s d
unfolding read_encoding
read_encoding-AreInRange s text c d e = elim (Bool-cases (get_or (drop 1 text) 0 0 == b'#')) [
  | inl long ↦
      in_range_lem 4 four-IsLength s (drop 1 (drop 1 text)) (record c { scheme = s }) d
        (rw long at e)
  | inr short ↦
      in_range_lem 2 two-IsLength s (drop 1 text) (record c { scheme = s }) d (rw short at e)
]
