-- ===== src/Preconv/Utf8.antt =====
-- `struct utf8`, which decodes UTF-8, and the output of one character.
pub mod Bytes
pub mod Decode
pub mod Range
use groff.Prelude.{
  ℕ, zero, suc, ◌+◌, ◌-◌, ◌*◌, ◌/◌, ◌%◌, ◌^◌, ◌≤◌, ◌<◌, ◌≡◌, ◌≢◌, ◌↔◌, ◌⊎◌, refl, sym, ap, ◌∙◌, inl,
  inr, Bool, true, false, not, ◌&&◌, ◌||◌, Option, none, some, List, [], ◌∷◌, ◌++◌, append_assoc,
  append-nil, arith, ltb, leb, ◌==◌, if◌then◌else◌, Bool-cases, Option-cases, codes, length,
  get_elem?, get_or, take, drop, replicate, length-append, length-take, length-drop,
  length-replicate, take-append-drop, All, ℤ, pos, negsuc, pos_part, neg_part, ◌+ℤ◌, ◌-ℤ◌, ◌*ℤ◌,
  ◌≤ℤ◌, ◌<ℤ◌, ltb_ℤ, leb_ℤ, eq_ℤ, minus, neg, quot, rem, mag,
}
use groff.Unicode.{print_04x}

-- `unicode_entity`: what is printed for a character.
unfoldable pub unicode_entity : ℕ → List ℕ
unicode_entity u =
    if ltb u 128
    then u ∷ []
    else if u == 160
    then codes "\\~"
    else if u == 173
    then codes "\\%"
    else codes "\\[u" ++ print_04x u ++ codes "]"

-- Which byte of a sequence comes next.
pub data Position : Type 0 where
  first second third fourth fifth sixth : Position

abbrev pub index : Position → ℕ
index first = 0
index second = 1
index third = 2
index fourth = 3
index fifth = 4
index sixth = 5

-- The state of `utf8`; the flags that keep a warning from being given twice are left out.
pub record Utf8 : Type 0 where
  pub s : ℕ → ℕ
  pub byte : Position
  pub expected_byte_count : ℕ

-- `s[i] = c`
abbrev pub store : (ℕ → ℕ) → ℕ → ℕ → ℕ → ℕ
store s i c j = if j == i then c else s j

-- What a call of `add` does: the state it leaves and the characters it gives to `unicode_entity`.
abbrev pub Added : Type 0
Added = Utf8 × List ℕ

unfoldable pub replacement : ℕ
replacement = 65533

abbrev pub expecting : Utf8 → ℕ → Added
expecting u n = (record u { byte = second; expected_byte_count = n }, [])

abbrev pub go_on : Utf8 → Position → Added
go_on u p = (record u { byte = p }, [])

abbrev pub done : Utf8 → ℕ → Added
done u c = (record u { byte = first }, c ∷ [])

-- `invalid` and `incomplete`, which differ in their warning.
abbrev pub invalid : Utf8 → Added
unfolding replacement
invalid u = done u replacement

-- The case of a first byte.
unfoldable pub add_first : Utf8 → ℕ → Added
add_first u c =
    if ltb c 128
    then (u, c ∷ [])
    else if ltb c 192
    then invalid u
    else if ltb c 224
    then expecting u 2
    else if ltb c 240
    then expecting u 3
    else if ltb c 248
    then expecting u 4
    else if ltb c 252
    then expecting u 5
    else if ltb c 254
    then expecting u 6
    else invalid u

-- `c ^ 0x80`, on a byte.
unfoldable pub low_bits : ℕ → ℕ
low_bits c = if ltb c 128 then c + 128 else c - 128

-- The switch, for a byte that continues a sequence.
unfoldable pub add_continuation : Position → Utf8 → Added
add_continuation first u = (u, [])
add_continuation second u =
    if u.expected_byte_count == 2
    then (if ltb (u.s 0) 194 then invalid u else done u (u.s 0 % 32 * 64 + low_bits (u.s 1)))
    else go_on u third
add_continuation third u =
    if u.expected_byte_count == 3
    then (if not (leb 225 (u.s 0) || leb 160 (u.s 1))
        then invalid u
        else done u (u.s 0 % 32 * 4096 + low_bits (u.s 1) * 64 + low_bits (u.s 2)))
    else go_on u fourth
add_continuation fourth u =
    if u.expected_byte_count == 4
    then (if not (
          (leb 241 (u.s 0) || leb 144 (u.s 1))
          && (ltb (u.s 0) 244 || (u.s 0 == 244 && ltb (u.s 1) 144)))
        then invalid u
        else done u (
            u.s 0 % 8 * 262144
            + low_bits (u.s 1) * 4096
            + low_bits (u.s 2) * 64
            + low_bits (u.s 3)))
    else go_on u fifth
add_continuation fifth u = if u.expected_byte_count == 5 then invalid u else go_on u sixth
add_continuation sixth u = invalid u

abbrev pub is_first : Position → Bool
is_first first = true
is_first _ = false

-- `add`. The call of itself behind `incomplete` is one with `byte` at the first position.
unfoldable pub add : Utf8 → ℕ → Added
add u c =
    let v = record u { s = store u.s (index u.byte) c } in
    let again = add_first (record v { s = store v.s 0 c; byte = first }) c in
    if is_first u.byte
    then add_first v c
    else if ltb c 128 || ltb 191 c
    then (again.0, replacement ∷ again.1)
    else add_continuation u.byte v

-- The bytes of a text, one by one.
unfoldable pub add_all : Utf8 → List ℕ → Added
add_all u [] = (u, [])
add_all u (c ∷ text) = let (v, out) = add u c in let (w, rest) = add_all v text in (w, out ++ rest)

-- The constructor, the loops of `conversion_utf8` and the destructor, up to the printing: the characters
-- that are given to `unicode_entity`. What the bytes of `s` hold at first is not defined.
abbrev pub new_utf8 : (ℕ → ℕ) → Utf8
new_utf8 s = record { s = s; byte = first; expected_byte_count = 1 }

unfoldable pub decode : (ℕ → ℕ) → List ℕ → List ℕ
decode s text =
    let (u, out) = add_all (new_utf8 s) text in
    out ++ (if is_first u.byte then [] else replacement ∷ [])

abbrev pub entities : List ℕ → List ℕ
entities [] = []
entities (c ∷ cs) = unicode_entity c ++ entities cs

-- `conversion_utf8`, on the data that was read before and the rest of the file as one text.
unfoldable pub conversion_utf8 : (ℕ → ℕ) → List ℕ → List ℕ
conversion_utf8 s text = entities (decode s text)

-- `conversion_latin1`
abbrev pub conversion_latin1 : List ℕ → List ℕ
conversion_latin1 text = entities text
