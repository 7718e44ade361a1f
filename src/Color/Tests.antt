-- ===== src/Color/Tests.antt =====
-- Colors on small values.
use groff.Prelude.{ℕ, ◌-◌, ◌*◌, ◌≤◌, ◌≡◌, ◌≢◌, refl, inl, true, some, ◌++◌, arith, codes}
use groff.Color.{
  default, cmy, cmyk, rgb, Color, max_color_val, Triple, get_rgb, get_cmyk, get_gray, gray_of,
  set_rgb, set_cmyk, is_equal, same_components, plus_u, minus_u, times_u, weigh,
}
use groff.Color.Bounds.{IsClose}
use groff.Color.Schemes.{IsColor, AreInRange, get_gray_lem, get_rgb-get_cmyk}
use groff.Color.Encoding.{read_rgb, read_encoding, atoh, digit_value, read_components}
use groff.Color.Encoding.Laws.{read_rgb-written, written, read_encoding-AreInRange, components_of}

abbrev white : Color
white = record { scheme = cmyk; c0 = 0; c1 = 0; c2 = 0; c3 = 0 }

abbrev orange : Color
orange = record { scheme = rgb; c0 = 65535; c1 = 42405; c2 = 0; c3 = 0 }

white-IsColor : IsColor white
white-IsColor = ground arith

white_not_default : cmyk ≢ default
white_not_default e = absurd (cc)

get_gray_lem_example :
    (g : ℕ) × (get_gray white ≡ some g)
    × (cmyk ≢ cmyk → g ≤ max_color_val)
    × (cmyk ≡ cmyk
        → (p : ℕ) × (gray_of cmy white ≡ some p)
          × (p ≤ max_color_val)
          × (g ≡ p * (max_color_val - 0)))
get_gray_lem_example = get_gray_lem white white-IsColor white_not_default

-- White as gray, which is no component.
white_gray : get_gray white ≡ some 4294836225
unfolding gray_of weigh plus_u minus_u times_u
white_gray = refl

get_rgb-get_cmyk_example :
    (v : Triple × ℕ) × (get_cmyk (set_rgb 65535 42405 0 white) ≡ some v)
    × (t : Triple) × (get_rgb (set_cmyk v.0.0 v.0.1 v.0.2 v.1 white) ≡ some t)
    × IsClose 65535 t.0
    × IsClose 42405 t.1
    × IsClose 0 t.2
get_rgb-get_cmyk_example =
    get_rgb-get_cmyk 65535 42405 0 white (ground arith) (ground arith) (ground arith)

same : is_equal orange (record orange { c3 = 7 }) ≡ true
unfolding is_equal same_components
same = refl

read_rgb-written_example :
    read_rgb (codes "##" ++ written b'a' 65535 ++ written b'a' 42405 ++ written b'a' 0) white
    ≡ (record { scheme = rgb; c0 = 65535; c1 = 42405; c2 = 0; c3 = 0 }, true)
read_rgb-written_example =
    read_rgb-written b'a' 65535 42405 0 white (inl refl) (ground arith) (ground arith)
      (ground arith)

short_orange :
    read_encoding rgb (components_of rgb) (codes "#ffa500") white
    ≡ (record { scheme = rgb; c0 = 65535; c1 = 42405; c2 = 0; c3 = 0 }, true)
unfolding read_encoding read_components atoh digit_value plus_u times_u
short_orange = refl

read_encoding-AreInRange_example : AreInRange rgb orange
read_encoding-AreInRange_example =
    read_encoding-AreInRange rgb (codes "#ffa500") white orange short_orange
