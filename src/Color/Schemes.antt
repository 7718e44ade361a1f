-- ===== src/Color/Schemes.antt =====
-- What the views of one color in several schemes have to do with one another.
use Prim.Native.Nat.{min}
use groff.Prelude.{
  ℕ, ◌+◌, ◌-◌, ◌*◌, ◌≤◌, ◌≡◌, ◌≢◌, refl, ap, ◌∙◌, inl, inr, true, some, arith, ◌==◌, Bool-cases,
}
use groff.Color.{
  ColorScheme, default, cmy, cmyk, rgb, gray, Color, max_color_val, minus_u, times_u, plus_u, weigh,
  without_black, less_black, Triple, rgb_of, cmy_of, cmyk_of, gray_of, to_cmyk, get_rgb, get_cmy,
  get_cmyk, get_gray, set_rgb, set_cmyk, is_equal, same_components, scheme_number,
}
use groff.Color.Bounds.{
  minus_u_lem, times_u_lem, without_black-le, less_black-le, IsClose, without_black-less_black,
}

-- The components that a scheme uses are at most the largest value.
abbrev pub AreInRange : ColorScheme → Color → Type 0
AreInRange default c = Unit
AreInRange gray c = c.c0 ≤ max_color_val
AreInRange cmyk c =
    (c.c0 ≤ max_color_val)
    × (c.c1 ≤ max_color_val)
    × (c.c2 ≤ max_color_val)
    × (c.c3 ≤ max_color_val)
AreInRange _ c = (c.c0 ≤ max_color_val) × (c.c1 ≤ max_color_val) × (c.c2 ≤ max_color_val)

abbrev pub IsColor : Color → Type 0
IsColor c = AreInRange c.scheme c

complement_lem : (a : ℕ) → a ≤ max_color_val → minus_u max_color_val a + a ≡ max_color_val
complement_lem a h = rw (minus_u_lem max_color_val a h (omega arith)) (omega arith)

swapped : (a : ℕ) → a ≤ max_color_val → a + minus_u max_color_val a ≡ max_color_val
swapped a h = omega (arith, complement_lem a h)

-- Two triples add up to white.
abbrev pub AreComplements : Triple → Triple → Type 0
AreComplements (r, g, b) (x, y, z) =
    (r + x ≡ max_color_val) × (g + y ≡ max_color_val) × (b + z ≡ max_color_val)

complements_of :
    (s : ColorScheme) (c : Color)
    → AreInRange s c
    → s ≢ default
    → (t : Triple) × (u : Triple) × (rgb_of s c ≡ some t)
      × (cmy_of s c ≡ some u)
      × AreComplements t u
unfolding rgb_of cmy_of
complements_of default c h ne = absurd (ne refl)
complements_of rgb c (h0, h1, h2) ne =
    (_, _, refl, refl, (swapped c.c0 h0, swapped c.c1 h1, swapped c.c2 h2))
complements_of cmy c (h0, h1, h2) ne =
    (_, _, refl, refl, (complement_lem c.c0 h0, complement_lem c.c1 h1, complement_lem c.c2 h2))
complements_of cmyk c (h0, h1, h2, h3) ne = (
  _,
  _,
  refl,
  refl,
  (
    complement_lem (without_black c.c0 c.c3) (without_black-le c.c0 c.c3),
    complement_lem (without_black c.c1 c.c3) (without_black-le c.c1 c.c3),
    complement_lem (without_black c.c2 c.c3) (without_black-le c.c2 c.c3),
  ),
)
complements_of gray c h ne = (_, _, refl, refl, (swapped c.c0 h, swapped c.c0 h, swapped c.c0 h))

-- The RGB and the CMY view of a color that is not the default add up to white in each component,
-- whatever its scheme.
pub get_rgb-get_cmy :
    (c : Color)
    → IsColor c
    → c.scheme ≢ default
    → (t : Triple) × (u : Triple) × (get_rgb c ≡ some t) × (get_cmy c ≡ some u) × AreComplements t u
get_rgb-get_cmy c h ne = complements_of c.scheme c h ne

weigh_lem :
    (x y z : ℕ)
    → x ≤ max_color_val
    → y ≤ max_color_val
    → z ≤ max_color_val
    → weigh x y z ≤ max_color_val
unfolding weigh plus_u times_u
weigh_lem x y z hx hy hz = omega arith

complement-le : (a : ℕ) → a ≤ max_color_val → minus_u max_color_val a ≤ max_color_val
complement-le a h = omega (arith, complement_lem a h)

product_lem :
    (a k : ℕ)
    → a ≤ max_color_val
    → k ≤ max_color_val
    → times_u (minus_u max_color_val a) (minus_u max_color_val k)
      ≡ minus_u max_color_val a * (max_color_val - k)
product_lem a k ha hk =
    times_u_lem (minus_u max_color_val a) (minus_u max_color_val k) (complement-le a ha)
      (complement-le k hk)
    ∙ rw (minus_u_lem max_color_val k hk (omega arith)) refl

gray_lem :
    (s : ColorScheme) (c : Color)
    → AreInRange s c
    → s ≢ default
    → (g : ℕ) × (gray_of s c ≡ some g)
      × (s ≢ cmyk → g ≤ max_color_val)
      × (s ≡ cmyk
          → (p : ℕ) × (gray_of cmy c ≡ some p)
            × (p ≤ max_color_val)
            × (g ≡ p * (max_color_val - c.c3)))
unfolding gray_of
gray_lem default c h ne = absurd (ne refl)
gray_lem rgb c (h0, h1, h2) ne =
    (_, refl, (λ _. weigh_lem c.c0 c.c1 c.c2 h0 h1 h2), λ e. absurd (cc))
gray_lem cmy c (h0, h1, h2) ne = (
  _,
  refl,
  (λ _. omega (arith, complement_lem (weigh c.c0 c.c1 c.c2) (weigh_lem c.c0 c.c1 c.c2 h0 h1 h2))),
  λ e. absurd (cc),
)
gray_lem cmyk c (h0, h1, h2, h3) ne = (
  _,
  refl,
  (λ n. absurd (n refl)),
  λ _. (
    _,
    refl,
    complement-le (weigh c.c0 c.c1 c.c2) (weigh_lem c.c0 c.c1 c.c2 h0 h1 h2),
    product_lem (weigh c.c0 c.c1 c.c2) c.c3 (weigh_lem c.c0 c.c1 c.c2 h0 h1 h2) h3,
  ),
)
gray_lem gray c h ne = (_, refl, (λ _. h), λ e. absurd (cc))

-- A color as gray is a component again but for CMYK, whose gray is the product of two components: the
-- gray of its CMY part and the complement of its black.
pub get_gray_lem :
    (c : Color)
    → IsColor c
    → c.scheme ≢ default
    → (g : ℕ) × (get_gray c ≡ some g)
      × (c.scheme ≢ cmyk → g ≤ max_color_val)
      × (c.scheme ≡ cmyk
          → (p : ℕ) × (gray_of cmy c ≡ some p)
            × (p ≤ max_color_val)
            × (g ≡ p * (max_color_val - c.c3)))
get_gray_lem c h ne = gray_lem c.scheme c h ne

-- One component, taken to CMYK and back.
back :
    (r k : ℕ)
    → r ≤ max_color_val
    → k ≤ max_color_val - r
    → IsClose r (
        minus_u max_color_val (
          without_black
            (min max_color_val (less_black (minus_u max_color_val r) k))
            (min max_color_val k)))
back r k h le =
    let x = max_color_val - r in
    let close = without_black-less_black x k le (omega arith) in
    let small : less_black x k ≤ max_color_val = less_black-le x k le (omega arith) in
    let e1 : min max_color_val (less_black x k) ≡ less_black x k = omega arith in
    let e2 : min max_color_val k ≡ k = omega arith in
    rw
      (
        minus_u_lem max_color_val r h (omega arith),
        e1,
        e2,
        minus_u_lem max_color_val (without_black (less_black x k) k)
            (without_black-le (less_black x k) k) (omega arith),
      )
      (omega arith)

-- A color of RGB that is converted to CMYK and back is lighter by at most one step in each component.
pub get_rgb-get_cmyk :
    (r g b : ℕ) (c : Color)
    → r ≤ max_color_val
    → g ≤ max_color_val
    → b ≤ max_color_val
    → (v : Triple × ℕ) × (get_cmyk (set_rgb r g b c) ≡ some v)
      × (t : Triple) × (get_rgb (set_cmyk v.0.0 v.0.1 v.0.2 v.1 c) ≡ some t)
      × IsClose r t.0
      × IsClose g t.1
      × IsClose b t.2
unfolding cmyk_of rgb_of set_rgb set_cmyk to_cmyk
get_rgb-get_cmyk r g b c hr hg hb =
    let er : min max_color_val r ≡ r = omega arith in
    let eg : min max_color_val g ≡ g = omega arith in
    let eb : min max_color_val b ≡ b = omega arith in
    let k =
      min (minus_u max_color_val r) (min (minus_u max_color_val g) (minus_u max_color_val b)) in
    let mr = minus_u_lem max_color_val r hr (omega arith) in
    let mg = minus_u_lem max_color_val g hg (omega arith) in
    let mb = minus_u_lem max_color_val b hb (omega arith) in
    (
      _,
      rw (er, eg, eb) refl,
      _,
      refl,
      back r k hr (omega arith),
      back g k hg (omega arith),
      back b k hb (omega arith),
    )

views_of :
    (s : ColorScheme) (c d : Color)
    → same_components s c d ≡ true
    → (rgb_of s c ≡ rgb_of s d)
      × (cmy_of s c ≡ cmy_of s d)
      × (cmyk_of s c ≡ cmyk_of s d)
      × (gray_of s c ≡ gray_of s d)
unfolding same_components rgb_of cmy_of cmyk_of gray_of
views_of default c d h = (refl, refl, refl, refl)
views_of rgb c d h =
    let e0 : c.c0 ≡ d.c0 = ground (arith, h) in
    let e1 : c.c1 ≡ d.c1 = ground (arith, h) in
    let e2 : c.c2 ≡ d.c2 = ground (arith, h) in rw (e0, e1, e2) (refl, refl, refl, refl)
views_of cmy c d h =
    let e0 : c.c0 ≡ d.c0 = ground (arith, h) in
    let e1 : c.c1 ≡ d.c1 = ground (arith, h) in
    let e2 : c.c2 ≡ d.c2 = ground (arith, h) in rw (e0, e1, e2) (refl, refl, refl, refl)
views_of cmyk c d h =
    let e0 : c.c0 ≡ d.c0 = ground (arith, h) in
    let e1 : c.c1 ≡ d.c1 = ground (arith, h) in
    let e2 : c.c2 ≡ d.c2 = ground (arith, h) in
    let e3 : c.c3 ≡ d.c3 = ground (arith, h) in rw (e0, e1, e2, e3) (refl, refl, refl, refl)
views_of gray c d h = let e0 : c.c0 ≡ d.c0 = ground (arith, h) in rw e0 (refl, refl, refl, refl)

scheme_of_number : (s u : ColorScheme) → (scheme_number s == scheme_number u) ≡ true → s ≡ u
scheme_of_number default u h = ground arith
scheme_of_number cmy u h = ground arith
scheme_of_number cmyk u h = ground arith
scheme_of_number rgb u h = ground arith
scheme_of_number gray u h = ground arith

-- Colors that compare equal have the same views in every scheme.
pub is_equal-views :
    (c d : Color)
    → is_equal c d ≡ true
    → (get_rgb c ≡ get_rgb d)
      × (get_cmy c ≡ get_cmy d)
      × (get_cmyk c ≡ get_cmyk d)
      × (get_gray c ≡ get_gray d)
unfolding is_equal
is_equal-views c d h = elim (Bool-cases (scheme_number c.scheme == scheme_number d.scheme)) [
  | inl same ↦
      let e = scheme_of_number c.scheme d.scheme same in
      let (v1, v2, v3, v4) = views_of c.scheme c d (ground (arith, h)) in
      (
        v1 ∙ ap (λ s. rgb_of s d) e,
        v2 ∙ ap (λ s. cmy_of s d) e,
        v3 ∙ ap (λ s. cmyk_of s d) e,
        v4 ∙ ap (λ s. gray_of s d) e,
      )
  | inr different ↦ absurd (ground (arith, h))
]
