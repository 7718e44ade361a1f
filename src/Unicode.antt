-- ===== src/Unicode.antt =====
-- src/libs/libgroff/unicode.cpp: names of Unicode characters, and their UTF-8 form.
pub mod Names
pub mod Accepted
use groff.Prelude.{
  ℕ, zero, suc, ◌+◌, ◌-◌, ◌*◌, ◌/◌, ◌%◌, ◌^◌, ◌≤◌, ◌<◌, ◌≡◌, ◌≢◌, ◌↔◌, ◌⊎◌, refl, sym, ap, ◌∙◌, inl,
  inr, Bool, true, false, not, ◌&&◌, ◌||◌, Option, none, some, List, [], ◌∷◌, ◌++◌, append_assoc,
  append-nil, arith, ltb, leb, ◌==◌, if◌then◌else◌, Bool-cases, Option-cases, codes, length,
  get_elem?, get_or, take, drop, replicate, length-append, length-take, length-drop,
  length-replicate, take-append-drop, All, ℤ, pos, negsuc, pos_part, neg_part, ◌+ℤ◌, ◌-ℤ◌, ◌*ℤ◌,
  ◌≤ℤ◌, ◌<ℤ◌, ltb_ℤ, leb_ℤ, eq_ℤ, minus, neg, quot, rem, mag,
}
use groff.Characters.{csdigit, csupper, csxdigit}

-- Why a sequence is refused: the messages of `valid_unicode_code_sequence`.
pub data Refusal : Type 0 where
  lacks_u non_hexadecimal lowercase out_of_range surrogate too_short leading_zero : Refusal

pub data Verdict : Type 0 where
  valid : List ℕ → Verdict
  refused : Refusal → Verdict

-- The tests on a whole component; `leading` is `*u`, the character behind the first 'u'.
unfoldable pub component_refusal : ℕ → ℕ → ℕ → Option Refusal
component_refusal leading val width =
    if (leb 55296 val && leb val 56319) || (leb 56320 val && leb val 57343)
    then some surrogate
    else if ltb width 4
    then some too_short
    else if ltb 4 width && leading == b'0'
    then some leading_zero
    else none

abbrev pub unless : Option Refusal → Verdict → Verdict
unless none v = v
unless (some r) v = refused r

-- The value of a hexadecimal digit.
abbrev pub upper_value : ℕ → ℕ
upper_value c = if csdigit c then c - b'0' else c - b'A' + 10

-- The two loops in one: `started` says whether the component has a digit, behind which the string or
-- the component can end. `u` is the string that is returned.
unfoldable pub scan : List ℕ → Bool → ℕ → ℕ → List ℕ → Verdict
scan u started val width [] =
    if started
    then unless (component_refusal (get_or u 0 0) val width) (valid u)
    else refused non_hexadecimal
scan u started val width (p ∷ s) =
    let more = scan u true (val * 16 + upper_value p) (width + 1) s in
    let next = scan u false 0 0 s in
    if started && p == b'_'
    then unless (component_refusal (get_or u 0 0) val width) next
    else if not (csxdigit p)
    then refused non_hexadecimal
    else if csdigit p || csupper p
    then (if ltb 1114111 (val * 16 + upper_value p) then refused out_of_range else more)
    else refused lowercase

unfoldable pub valid_unicode_code_sequence : List ℕ → Verdict
valid_unicode_code_sequence [] = refused lacks_u
valid_unicode_code_sequence (c ∷ u) = if c == b'u' then scan u false 0 0 u else refused lacks_u

-- "%X" with `k` digits, in upper case.
abbrev pub hex_char : ℕ → ℕ
hex_char d = if ltb d 10 then b'0' + d else b'A' + (d - 10)

abbrev pub hex_digits : ℕ → ℕ → List ℕ
hex_digits zero n = []
hex_digits (suc k) n = hex_char (n / 16 ^ k % 16) ∷ hex_digits k n

-- "%04X" of the C library for an `unsigned int`, and "%X" for one of at least 4096.
abbrev pub width_of : ℕ → ℕ
width_of n =
    if ltb n 65536
    then 4
    else if ltb n 1048576
    then 5
    else if ltb n 16777216
    then 6
    else if ltb n 268435456
    then 7
    else 8

abbrev pub print_04x : ℕ → List ℕ
print_04x n = hex_digits (width_of n) n

-- `to_utf8_string`. The masks are remainders, and the bits that they leave do not overlap.
unfoldable pub to_utf8_string : ℕ → List ℕ
to_utf8_string ch =
    if ltb ch 128
    then ch ∷ []
    else if ltb ch 2048
    then (192 + ch / 64 % 32) ∷ (128 + ch % 64) ∷ []
    else if ltb ch 55296 || (ltb 57343 ch && ltb ch 65536)
    then (224 + ch / 4096 % 16) ∷ (128 + ch / 64 % 64) ∷ (128 + ch % 64) ∷ []
    else if ltb 65535 ch && ltb ch 1179648
    then (240 + ch / 262144 % 8)
      ∷ (128 + ch / 4096 % 64)
      ∷ (128 + ch / 64 % 64)
      ∷ (128 + ch % 64)
      ∷ []
    else codes "&#x" ++ print_04x ch ++ codes ";"
