-- ===== src/Preconv/CodingTag.antt =====
-- The byte order mark and the coding tag: which encoding a file says that it has. A C string is the list of
-- its bytes, without the final null, and a pointer into it is the rest of it.
pub mod Ends
pub mod Written
use groff.Prelude.Maybe.{◌>>=◌}
use groff.Prelude.{
  ℕ, zero, suc, ◌+◌, ◌-◌, ◌*◌, ◌/◌, ◌%◌, ◌^◌, ◌≤◌, ◌<◌, ◌≡◌, ◌≢◌, ◌↔◌, ◌⊎◌, refl, sym, ap, ◌∙◌, inl,
  inr, Bool, true, false, not, ◌&&◌, ◌||◌, Option, none, some, List, [], ◌∷◌, ◌++◌, append_assoc,
  append-nil, arith, ltb, leb, ◌==◌, if◌then◌else◌, Bool-cases, Option-cases, ==_iff, ==→eq, ltb→lt,
  leb→le, codes, length, get_elem?, get_or, take, drop, replicate, length-append, length-take,
  length-drop, length-replicate, take-append-drop, All, ℤ, pos, negsuc, pos_part, neg_part, ◌+ℤ◌,
  ◌-ℤ◌, ◌*ℤ◌, ◌≤ℤ◌, ◌<ℤ◌, ltb_ℤ, leb_ℤ, eq_ℤ, minus, neg, quot, rem, mag, int_laws, eq_of_parts,
}

-- `BOM_table`: the bytes of a mark and its encoding.
abbrev pub bom_table : List (List ℕ × List ℕ)
bom_table =
    ((0 ∷ 0 ∷ 254 ∷ 255 ∷ []), codes "UTF-32")
    ∷ ((255 ∷ 254 ∷ 0 ∷ 0 ∷ []), codes "UTF-32")
    ∷ ((239 ∷ 187 ∷ 191 ∷ []), codes "UTF-8")
    ∷ ((254 ∷ 255 ∷ []), codes "UTF-16")
    ∷ ((255 ∷ 254 ∷ []), codes "UTF-16")
    ∷ []

-- The bytes begin with these.
unfoldable pub starts_with : List ℕ → List ℕ → Bool
starts_with [] s = true
starts_with (c ∷ t) [] = false
starts_with (c ∷ t) (d ∷ s) = c == d && starts_with t s

-- What `get_BOM` leaves: the encoding, the mark, the data and the rest of the file.
pub record Bom : Type 0 where
  pub encoding : Option (List ℕ)
  pub mark : List ℕ
  pub data_read : List ℕ
  pub rest : List ℕ

unfoldable pub find_bom : List (List ℕ × List ℕ) → List ℕ → List ℕ → Bom
find_bom [] bytes rest = record { encoding = none; mark = []; data_read = bytes; rest = rest }
find_bom ((str, name) ∷ table) bytes rest =
    let later = find_bom table bytes rest in
    if starts_with str bytes
    then record {
      encoding = some name;
      mark = take (length str) bytes;
      data_read = drop (length str) bytes;
      rest = rest;
    }
    else later

unfoldable pub get_bom : List ℕ → Bom
get_bom file = find_bom bom_table (take 4 file) (drop 4 file)

-- `strchr`: the byte is one of these.
unfoldable pub contains : List ℕ → ℕ → Bool
contains [] c = false
contains (d ∷ stops) c = c == d || contains stops c

abbrev pub blanks : List ℕ
blanks = b' ' ∷ 9 ∷ []

-- A loop that goes on while the byte is one of these.
unfoldable pub skip_while : List ℕ → List ℕ → List ℕ
skip_while these [] = []
skip_while these (c ∷ s) = let more = skip_while these s in if contains these c then more else c ∷ s

-- And one that goes on to the first byte that is one of these.
unfoldable pub skip_to : List ℕ → List ℕ → List ℕ
skip_to stops [] = []
skip_to stops (c ∷ s) = let more = skip_to stops s in if contains stops c then c ∷ s else more

abbrev pub escapes_comment : List ℕ → Bool
escapes_comment [] = false
escapes_comment (c ∷ s) = c == b'"' || c == b'#'

abbrev pub is_request_comment : List ℕ → Bool
is_request_comment [] = false
is_request_comment (c ∷ s) = c == b'\\' && escapes_comment s

abbrev pub is_hash : List ℕ → Bool
is_hash [] = false
is_hash (c ∷ s) = c == b'#'

unfoldable pub is_comment_line : List ℕ → Bool
is_comment_line [] = false
is_comment_line (c ∷ s) =
    if c == b'.' || c == b'\''
    then is_request_comment (skip_while blanks s)
    else c == b'\\' && is_hash s

-- The size of the buffers less one for the null.
abbrev pub max_var_len : ℕ
max_var_len = 100

-- A word up to one of the stops, as far as the room goes, and what is behind it.
unfoldable pub read_word : List ℕ → ℕ → List ℕ → List ℕ × List ℕ
read_word stops zero s = ([], s)
read_word stops (suc room) [] = ([], [])
read_word stops (suc room) (c ∷ s) =
    let more = read_word stops room s in
    if contains stops c then ([], c ∷ s) else (c ∷ more.0, more.1)

-- A variable, its value and the position of the next pair, if any.
pub record Pair : Type 0 where
  pub variable : List ℕ
  pub value : List ℕ
  pub next : Option (List ℕ)

unfoldable pub behind_semicolon : List ℕ → Option (List ℕ)
behind_semicolon [] = none
behind_semicolon (c ∷ s) = if c == b';' then some s else none

unfoldable pub read_value : List ℕ → List ℕ → Pair
read_value var [] = record { variable = var; value = []; next = none }
read_value var (c ∷ s) =
    let val = read_word (b';' ∷ blanks) (max_var_len - 1) (skip_while blanks s) in
    if c == b';' then record { variable = var; value = []; next = some s } else record {
      variable = var;
      value = val.0;
      next = behind_semicolon (skip_to (b';' ∷ []) val.1);
    }

unfoldable pub get_variable_value_pair : List ℕ → Pair
get_variable_value_pair d1 =
    let var = read_word (b';' ∷ b':' ∷ blanks) (max_var_len - 1) (skip_while blanks d1) in
    read_value var.0 (skip_to (b':' ∷ b';' ∷ []) var.1)

abbrev pub to_lower : ℕ → ℕ
to_lower c = if leb b'A' c && leb c b'Z' then c + 32 else c

-- `strcasecmp` finds no difference.
unfoldable pub same_word : List ℕ → List ℕ → Bool
same_word [] [] = true
same_word [] (d ∷ t) = false
same_word (c ∷ s) [] = false
same_word (c ∷ s) (d ∷ t) = to_lower c == to_lower d && same_word s t

-- The loop over the pairs: the value of the first variable `coding`. Out of fuel it is nothing.
unfoldable pub find_coding : ℕ → List ℕ → Option (Option (List ℕ))
find_coding zero d1 = none
find_coding (suc fuel) d1 =
    let pair = get_variable_value_pair d1 in
    if same_word pair.variable (codes "coding")
    then some (some pair.value)
    else elim pair.next [ none ↦ some none | some d2 ↦ find_coding fuel d2 ]

-- `strstr` for the marker of a list of variables: what is before it and what is behind it.
unfoldable pub find_marker : List ℕ → Option (List ℕ × List ℕ)
find_marker [] = none
find_marker (c ∷ s) =
    let later = find_marker s in
    if starts_with (codes "-*-") (c ∷ s)
    then some ([], drop 3 (c ∷ s))
    else later >>= λ found. some (c ∷ found.0, found.1)

-- The list of variables of a line, where it has both markers.
unfoldable pub variables_of : List ℕ → Option (List ℕ)
variables_of line = find_marker line >>= λ d1. find_marker d1.1 >>= λ d2. some d2.0

-- A line and what is behind its newline.
unfoldable pub split_line : List ℕ → Option (List ℕ × List ℕ)
split_line [] = none
split_line (c ∷ s) =
    let later = split_line s in
    if c == b'\n' then some ([], s) else later >>= λ found. some (c ∷ found.0, found.1)

-- The coding of a line, where it has a list of variables.
unfoldable pub line_coding : List ℕ → Option (Option (List ℕ))
line_coding line = elim (variables_of line) [
  | none ↦ some none
  | some d1 ↦ find_coding (length d1 + 1) d1
]

-- The loop over the comment lines.
unfoldable pub check_lines : ℕ → List ℕ → Option (Option (List ℕ))
check_lines zero p = none
check_lines (suc fuel) p =
    if is_comment_line p
    then elim (split_line p) [
      | none ↦ some none
      | some found ↦ line_coding found.0 >>= λ r. elim r [
        | none ↦ check_lines fuel found.1
        | some value ↦ some (some value)
      ]
    ]
    else some none

-- `inbuf` is the result of `get_tag_lines`, none for its null pointer.
unfoldable pub check_coding_tag : Option (List ℕ) → Option (Option (List ℕ))
check_coding_tag none = some none
check_coding_tag (some inbuf) = check_lines (length inbuf + 1) inbuf
