-- ===== src/Color.antt =====
-- src/libs/libgroff/color.cpp and src/include/color.h: colors in four schemes. The arithmetic is that
-- of `unsigned int`. The symbol `nm` and `print_color`, which formats with `sprintf`, are left out.
pub mod Bounds
pub mod Schemes
pub mod Encoding
mod Tests
use Prim.Native.Nat.{min}
use groff.Prelude.{
  ℕ, zero, suc, ◌+◌, ◌-◌, ◌*◌, ◌/◌, ◌%◌, ◌^◌, ◌≤◌, Bool, true, false, ◌&&◌, if◌then◌else◌, ◌==◌,
  Option, none, some,
}

pub data ColorScheme : Type 0 where
  default cmy cmyk rgb gray : ColorScheme

-- `components[0]` to `components[3]`.
pub record Color : Type 0 where
  pub scheme : ColorScheme
  pub c0 : ℕ
  pub c1 : ℕ
  pub c2 : ℕ
  pub c3 : ℕ

-- MAX_COLOR_VAL
abbrev pub max_color_val : ℕ
max_color_val = 65535

-- Sums, differences and products on `unsigned int`.
unfoldable pub plus_u : ℕ → ℕ → ℕ
plus_u a b = (a + b) % 2 ^ 32

unfoldable pub minus_u : ℕ → ℕ → ℕ
minus_u a b = (a + (2 ^ 32 - b)) % 2 ^ 32

unfoldable pub times_u : ℕ → ℕ → ℕ
times_u a b = (a * b) % 2 ^ 32

-- The setters cut each component off at the largest value.
unfoldable pub set_default : Color → Color
set_default c = record c { scheme = default }

unfoldable pub set_rgb : ℕ → ℕ → ℕ → Color → Color
set_rgb r g b c = record c {
  scheme = rgb;
  c0 = min max_color_val r;
  c1 = min max_color_val g;
  c2 = min max_color_val b;
}

unfoldable pub set_cmy : ℕ → ℕ → ℕ → Color → Color
set_cmy x y z c = record c {
  scheme = cmy;
  c0 = min max_color_val x;
  c1 = min max_color_val y;
  c2 = min max_color_val z;
}

unfoldable pub set_cmyk : ℕ → ℕ → ℕ → ℕ → Color → Color
set_cmyk x y z k c = record c {
  scheme = cmyk;
  c0 = min max_color_val x;
  c1 = min max_color_val y;
  c2 = min max_color_val z;
  c3 = min max_color_val k;
}

unfoldable pub set_gray : ℕ → Color → Color
set_gray g c = record c { scheme = gray; c0 = min max_color_val g }

-- `operator==` compares the components that the scheme uses.
unfoldable pub same_components : ColorScheme → Color → Color → Bool
same_components default c d = true
same_components rgb c d = c.c0 == d.c0 && c.c1 == d.c1 && c.c2 == d.c2
same_components cmyk c d = c.c0 == d.c0 && c.c1 == d.c1 && c.c2 == d.c2 && c.c3 == d.c3
same_components gray c d = c.c0 == d.c0
same_components cmy c d = c.c0 == d.c0 && c.c1 == d.c1 && c.c2 == d.c2

abbrev pub scheme_number : ColorScheme → ℕ
scheme_number default = 0
scheme_number cmy = 1
scheme_number cmyk = 2
scheme_number rgb = 3
scheme_number gray = 4

unfoldable pub is_equal : Color → Color → Bool
is_equal c d =
    if scheme_number c.scheme == scheme_number d.scheme then same_components c.scheme c d else false

-- The component of CMY for one of CMYK, and back from one of CMY or RGB less the black.
unfoldable pub without_black : ℕ → ℕ → ℕ
unfolding plus_u minus_u times_u
without_black x k =
    min max_color_val (plus_u (times_u x (minus_u max_color_val k) / max_color_val) k)

unfoldable pub less_black : ℕ → ℕ → ℕ
unfolding minus_u times_u
less_black x k =
    if k == max_color_val
    then max_color_val
    else times_u max_color_val (minus_u x k) / minus_u max_color_val k

abbrev pub Triple : Type 0
Triple = ℕ × ℕ × ℕ

-- The switches over the scheme; `none` is the assertion that fails for the default color.
unfoldable pub rgb_of : ColorScheme → Color → Option Triple
rgb_of default c = none
rgb_of rgb c = some (c.c0, c.c1, c.c2)
rgb_of cmy c =
    some (minus_u max_color_val c.c0, minus_u max_color_val c.c1, minus_u max_color_val c.c2)
rgb_of cmyk c = some (
  minus_u max_color_val (without_black c.c0 c.c3),
  minus_u max_color_val (without_black c.c1 c.c3),
  minus_u max_color_val (without_black c.c2 c.c3),
)
rgb_of gray c = some (c.c0, c.c0, c.c0)

abbrev pub get_rgb : Color → Option Triple
get_rgb c = rgb_of c.scheme c

unfoldable pub cmy_of : ColorScheme → Color → Option Triple
cmy_of default c = none
cmy_of rgb c =
    some (minus_u max_color_val c.c0, minus_u max_color_val c.c1, minus_u max_color_val c.c2)
cmy_of cmy c = some (c.c0, c.c1, c.c2)
cmy_of cmyk c = some (without_black c.c0 c.c3, without_black c.c1 c.c3, without_black c.c2 c.c3)
cmy_of gray c =
    some (minus_u max_color_val c.c0, minus_u max_color_val c.c0, minus_u max_color_val c.c0)

abbrev pub get_cmy : Color → Option Triple
get_cmy c = cmy_of c.scheme c

-- From the complements of RGB, or from CMY.
unfoldable pub to_cmyk : ℕ → ℕ → ℕ → Triple × ℕ
to_cmyk x y z = let k = min x (min y z) in ((less_black x k, less_black y k, less_black z k), k)

unfoldable pub cmyk_of : ColorScheme → Color → Option (Triple × ℕ)
cmyk_of default c = none
cmyk_of rgb c =
    some (
      to_cmyk (minus_u max_color_val c.c0) (minus_u max_color_val c.c1)
        (minus_u max_color_val c.c2))
cmyk_of cmy c = some (to_cmyk c.c0 c.c1 c.c2)
cmyk_of cmyk c = some ((c.c0, c.c1, c.c2), c.c3)
cmyk_of gray c = some ((0, 0, 0), minus_u max_color_val c.c0)

abbrev pub get_cmyk : Color → Option (Triple × ℕ)
get_cmyk c = cmyk_of c.scheme c

-- 222 x + 707 y + 71 z, in thousandths.
unfoldable pub weigh : ℕ → ℕ → ℕ → ℕ
unfolding plus_u times_u
weigh x y z = plus_u (plus_u (times_u 222 x) (times_u 707 y)) (times_u 71 z) / 1000

unfoldable pub gray_of : ColorScheme → Color → Option ℕ
gray_of default c = none
gray_of rgb c = some (weigh c.c0 c.c1 c.c2)
gray_of cmy c = some (minus_u max_color_val (weigh c.c0 c.c1 c.c2))
gray_of cmyk c =
    some (times_u (minus_u max_color_val (weigh c.c0 c.c1 c.c2)) (minus_u max_color_val c.c3))
gray_of gray c = some c.c0

abbrev pub get_gray : Color → Option ℕ
get_gray c = gray_of c.scheme c
