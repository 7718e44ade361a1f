-- ===== src/Color/Encoding.antt =====
-- Colors in hexadecimal, as `#rrggbb` or `##rrrrggggbbbb`.
pub mod Laws
use groff.Prelude.{
  ℕ, zero, suc, ◌+◌, ◌-◌, ◌*◌, ◌/◌, ◌%◌, ◌^◌, ◌≤◌, ◌<◌, ◌≡◌, ◌≢◌, ◌↔◌, ◌⊎◌, refl, sym, ap, ◌∙◌, inl,
  inr, Bool, true, false, not, ◌&&◌, ◌||◌, Option, none, some, List, [], ◌∷◌, ◌++◌, append_assoc,
  append-nil, arith, ltb, leb, ◌==◌, if◌then◌else◌, Bool-cases, Option-cases, codes, length,
  get_elem?, get_or, take, drop, replicate, length-append, length-take, length-drop,
  length-replicate, take-append-drop, All, ℤ, pos, negsuc, pos_part, neg_part, ◌+ℤ◌, ◌-ℤ◌, ◌*ℤ◌,
  ◌≤ℤ◌, ◌<ℤ◌, ltb_ℤ, leb_ℤ, eq_ℤ, minus, neg, quot, rem, mag,
}
use groff.Characters.{csdigit, csupper, csxdigit}
use groff.Color.{ColorScheme, default, cmy, cmyk, rgb, gray, Color, max_color_val, plus_u, times_u}
use groff.Color.Schemes.{AreInRange}

unfoldable pub digit_value : ℕ → ℕ
digit_value c = if csdigit c then c - b'0' else if csupper c then c - b'A' + 10 else c - b'a' + 10

-- `atoh`: `length` digits behind the value so far. Behind the end of the string stands its null.
unfoldable pub atoh : ℕ → List ℕ → ℕ → Option ℕ
unfolding plus_u times_u
atoh zero s val = some val
atoh (suc n) [] val = none
atoh (suc n) (c ∷ s) val =
    let rest = atoh n s (plus_u (times_u val 16) (digit_value c)) in
    if csxdigit c then rest else none

-- `components[i] = v`
abbrev pub set_component : ℕ → ℕ → Color → Color
set_component i v c =
    if i == 0
    then record c { c0 = v }
    else if i == 1
    then record c { c1 = v }
    else if i == 2
    then record c { c2 = v }
    else record c { c3 = v }

-- `return 0` where `atoh` refuses, and else the rest of the loop.
abbrev pub unless_refused : Option ℕ → Color → (ℕ → Color × Bool) → Color × Bool
unless_refused none c more = (c, false)
unless_refused (some v) c more = more v

-- The loop over the components from `i` on. One that is refused leaves those before it stored.
unfoldable pub read_components : ℕ → ℕ → ℕ → List ℕ → Color → Color × Bool
unfolding times_u
read_components hex_length i zero p c = (c, true)
read_components hex_length i (suc n) p c = unless_refused (atoh hex_length p 0) c (λ v.
    read_components hex_length (suc i) n (drop hex_length p)
      (set_component i (if hex_length == 2 then times_u v 257 else v) c))

-- The first character is passed unread. An empty string, past whose end the code would read, is refused
-- here.
unfoldable pub read_encoding : ColorScheme → ℕ → List ℕ → Color → Color × Bool
read_encoding cs n s c =
    let d = record c { scheme = cs } in
    let p = drop 1 s in
    if get_or p 0 0 == b'#' then read_components 4 0 n (drop 1 p) d else read_components 2 0 n p d

abbrev pub read_rgb : List ℕ → Color → Color × Bool
read_rgb = read_encoding rgb 3

abbrev pub read_cmy : List ℕ → Color → Color × Bool
read_cmy = read_encoding cmy 3

abbrev pub read_cmyk : List ℕ → Color → Color × Bool
read_cmyk = read_encoding cmyk 4

abbrev pub read_gray : List ℕ → Color → Color × Bool
read_gray = read_encoding gray 1
