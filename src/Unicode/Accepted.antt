-- ===== src/Unicode/Accepted.antt =====
-- What `valid_unicode_code_sequence` accepts.
use groff.Prelude.{
  ℕ, ◌+◌, ◌*◌, ◌≤◌, ◌≡◌, refl, ap, inl, inr, Bool, true, false, not, ◌&&◌, ◌||◌, Option, none, some,
  List, [], ◌∷◌, arith, ltb, ◌==◌, if◌then◌else◌, Bool-cases, length, get_or, All,
}
use groff.Characters.{csdigit, csupper, csxdigit}
use groff.Unicode.{
  Refusal, Verdict, valid, refused, non_hexadecimal, lowercase, out_of_range, component_refusal,
  unless, upper_value, scan, valid_unicode_code_sequence,
}
use groff.Unicode.Names.{IsScalar}

-- A text at its underscores: the first component, and the others.
abbrev pub split : List ℕ → List ℕ × List (List ℕ)
split [] = ([], [])
split (c ∷ s) =
    let (head, tail) = split s in if c == b'_' then ([], head ∷ tail) else (c ∷ head, tail)

-- The number that upper-case hexadecimal digits write behind `v`.
abbrev pub hexadecimal : ℕ → List ℕ → ℕ
hexadecimal v [] = v
hexadecimal v (c ∷ s) = hexadecimal (v * 16 + upper_value c) s

abbrev pub IsUpperHex : ℕ → Type 0
IsUpperHex c = (csxdigit c ≡ true) × ((csdigit c || csupper c) ≡ true)

-- A component behind `width` digits worth `v`.
abbrev pub IsComponent : ℕ → ℕ → List ℕ → Type 0
IsComponent v width ds = IsScalar (hexadecimal v ds) × (4 ≤ width + length ds) × All IsUpperHex ds

abbrev pub AreComponents : ℕ → ℕ → List ℕ × List (List ℕ) → Type 0
AreComponents v width p = IsComponent v width p.0 × All (IsComponent 0 0) p.1

unless_valid :
    (o : Option Refusal) (v : Verdict) (r : List ℕ)
    → unless o v ≡ valid r
    → (o ≡ none) × (v ≡ valid r)
unless_valid none v r e = (refl, e)
unless_valid (some x) v r e = absurd (ground arith)

whole_component :
    (leading val width : ℕ)
    → val ≤ 1114111
    → component_refusal leading val width ≡ none
    → IsScalar val × (4 ≤ width)
unfolding component_refusal
whole_component leading val width le e = ground arith

split_bar :
    (c : ℕ) (s : List ℕ) → (c == b'_') ≡ true → split (c ∷ s) ≡ ([], (split s).0 ∷ (split s).1)
split_bar c s h = rw h refl

split_other :
    (c : ℕ) (s : List ℕ) → (c == b'_') ≡ false → split (c ∷ s) ≡ (c ∷ (split s).0, (split s).1)
split_other c s h = rw h refl

not_bar : (c : ℕ) → csxdigit c ≡ true → (c == b'_') ≡ false
not_bar c h = ground arith

-- The verdict behind one more digit.
digit_verdict :
    (hex upper over : Bool) (more : Verdict) (r : List ℕ)
    → (if not hex
        then refused non_hexadecimal
        else if upper
        then (if over then refused out_of_range else more)
        else refused lowercase)
      ≡ valid r
    → (hex ≡ true) × (upper ≡ true) × (over ≡ false) × (more ≡ valid r)
digit_verdict true true false more r e = (refl, refl, refl, e)
digit_verdict true true true more r e = absurd (ground arith)
digit_verdict true false over more r e = absurd (ground arith)
digit_verdict false upper over more r e = absurd (ground arith)

scan-AreComponents :
    (u : List ℕ) (started : Bool) (val width : ℕ) (s r : List ℕ)
    → val ≤ 1114111
    → scan u started val width s ≡ valid r
    → AreComponents val width (split s)
unfolding scan
scan-AreComponents u true val width [] r le e =
    let (scalar, four) = whole_component (get_or u 0 0) val width le (unless_valid _ _ r e).0 in
    ((scalar, omega arith, tt), tt)
scan-AreComponents u false val width [] r le e = absurd (ground arith)
scan-AreComponents u started val width (c ∷ s) r le e = elim (Bool-cases (started && c == b'_')) [
  | inl ends ↦
      let (fits, rest) =
        unless_valid (component_refusal (get_or u 0 0) val width) (scan u false 0 0 s) r
          (rw ends at e) in
      let (scalar, four) = whole_component (get_or u 0 0) val width le fits in
      let (first_one, others) = scan-AreComponents u false 0 0 s r (omega arith) rest in
      let bar : (c == b'_') ≡ true = ground arith in
      rw (split_bar c s bar) ((scalar, omega arith, tt), (first_one, others))
  | inr digit ↦
      let (hex, up, within, rest) =
        digit_verdict (csxdigit c) (csdigit c || csupper c) (ltb 1114111 (val * 16 + upper_value c))
          (scan u true (val * 16 + upper_value c) (width + 1) s) r (rw digit at e) in
      let ((scalar, four, hexes), others) =
        scan-AreComponents u true (val * 16 + upper_value c) (width + 1) s r (ground arith) rest in
      rw (split_other c s (not_bar c hex)) ((scalar, omega arith, ((hex, up), hexes)), others)
]

-- Every sequence that is accepted is `u` and components between underscores, each of which has at least
-- four upper-case hexadecimal digits and stands for a code point that is no surrogate.
pub valid_unicode_code_sequence-AreComponents :
    (s r : List ℕ)
    → valid_unicode_code_sequence s ≡ valid r
    → (u : List ℕ) × (s ≡ b'u' ∷ u) × AreComponents 0 0 (split u)
unfolding valid_unicode_code_sequence
valid_unicode_code_sequence-AreComponents [] r e = absurd (ground arith)
valid_unicode_code_sequence-AreComponents (c ∷ u) r e = elim (Bool-cases (c == b'u')) [
  | inl same ↦ (
    u,
    ap (λ k. k ∷ u) (ground arith),
    scan-AreComponents u false 0 0 u r (omega arith) (rw same at e),
  )
  | inr other ↦ absurd (ground (arith, e))
]
