-- ===== src/Preconv/CodingTag/Ends.antt =====
-- The search for a coding tag ends, and its value fits in the buffer.
use mathlib.Core.Path.{subst}
use groff.Prelude.{
  ℕ, zero, suc, ◌+◌, ◌≤◌, ◌<◌, ◌≡◌, refl, inl, inr, Option, none, some, List, [], ◌∷◌, ◌++◌, arith,
  ◌==◌, Bool-cases, Option-cases, codes, length, take, drop, take-append-drop,
}
use groff.Preconv.CodingTag.{
  contains, blanks, skip_while, skip_to, max_var_len, read_word, behind_semicolon, read_value,
  get_variable_value_pair, same_word, find_coding, variables_of, split_line, line_coding,
  check_lines, check_coding_tag, is_comment_line, find_bom, bom_table, starts_with, get_bom,
}

pub skip_while-length : (these s : List ℕ) → length (skip_while these s) ≤ length s
unfolding skip_while
skip_while-length these [] = omega arith
skip_while-length these (c ∷ s) =
    let less = skip_while-length these s in
    elim (Bool-cases (contains these c)) [
      | inl skipped ↦ rw skipped (omega (arith, less))
      | inr kept ↦ rw kept (omega arith)
    ]

pub skip_to-length : (stops s : List ℕ) → length (skip_to stops s) ≤ length s
unfolding skip_to
skip_to-length stops [] = omega arith
skip_to-length stops (c ∷ s) =
    let less = skip_to-length stops s in
    elim (Bool-cases (contains stops c)) [
      | inl stop ↦ rw stop (omega arith)
      | inr passed ↦ rw passed (omega (arith, less))
    ]

-- A word fits in the room, and is taken from the text.
pub read_word-length :
    (stops : List ℕ) (room : ℕ) (s : List ℕ)
    → (length (read_word stops room s).0 ≤ room) × (length (read_word stops room s).1 ≤ length s)
unfolding read_word
read_word-length stops zero s = (omega arith, omega arith)
read_word-length stops (suc room) [] = (omega arith, omega arith)
read_word-length stops (suc room) (c ∷ s) =
    let (fits, less) = read_word-length stops room s in
    elim (Bool-cases (contains stops c)) [
      | inl stop ↦ rw stop (omega arith, omega arith)
      | inr taken ↦ rw taken (omega (arith, fits), omega (arith, less))
    ]

-- The position of the next pair, if any, is below the bound.
abbrev IsBelow : ℕ → Option (List ℕ) → Type 0
IsBelow bound none = Unit
IsBelow bound (some s) = length s < bound

behind_semicolon-IsBelow :
    (s : List ℕ) (bound : ℕ) → length s ≤ bound → IsBelow bound (behind_semicolon s)
unfolding behind_semicolon
behind_semicolon-IsBelow [] bound less = tt
behind_semicolon-IsBelow (c ∷ s) bound less = elim (Bool-cases (c == b';')) [
  | inl semicolon ↦ rw semicolon (omega arith)
  | inr other ↦ rw other tt
]

read_value_lem :
    (var s : List ℕ)
    → (length (read_value var s).value < max_var_len) × IsBelow (length s) (read_value var s).next
unfolding read_value
read_value_lem var [] = (omega arith, tt)
read_value_lem var (c ∷ s) = elim (Bool-cases (c == b';')) [
  | inl semicolon ↦ rw semicolon (omega arith, omega arith)
  | inr other ↦
      (let value_stops = b';' ∷ blanks in
        let (fits, less) = read_word-length value_stops 99 (skip_while blanks s) in
        let word = read_word value_stops 99 (skip_while blanks s) in
        let blank = skip_while-length blanks s in
        let behind = skip_to-length (b';' ∷ []) word.1 in
        rw other (
          omega (arith, fits),
          behind_semicolon-IsBelow (skip_to (b';' ∷ []) word.1) (suc (length s))
              (omega (arith, less, blank, behind)),
        ))
]

IsBelow-trans :
    (bound more : ℕ) (o : Option (List ℕ)) → bound ≤ more → IsBelow bound o → IsBelow more o
IsBelow-trans bound more none le below = tt
IsBelow-trans bound more (some s) le below = omega arith

get_variable_value_pair_lem :
    (d1 : List ℕ)
    → (length (get_variable_value_pair d1).value < max_var_len)
      × IsBelow (length d1) (get_variable_value_pair d1).next
unfolding get_variable_value_pair
get_variable_value_pair_lem d1 =
    let stops = b';' ∷ b':' ∷ blanks in
    let var = read_word stops 99 (skip_while blanks d1) in
    let blank = skip_while-length blanks d1 in
    let (fits, less) = read_word-length stops 99 (skip_while blanks d1) in
    let rest = skip_to (b':' ∷ b';' ∷ []) var.1 in
    let behind = skip_to-length (b':' ∷ b';' ∷ []) var.1 in
    let (value_fits, below) = read_value_lem var.0 rest in
    (
      value_fits,
      IsBelow-trans (length rest) (length d1) (read_value var.0 rest).next
          (omega (arith, less, blank, behind)) below,
    )

-- A coding, if any, fits in the buffer of the values.
abbrev pub Fits : Option (List ℕ) → Type 0
Fits none = Unit
Fits (some value) = length value < max_var_len

-- The search ends, with a coding that fits or with none.
abbrev pub Ends : Option (Option (List ℕ)) → Type 0
Ends result = (r : Option (List ℕ)) × (result ≡ some r) × Fits r

pub find_coding-Ends : (fuel : ℕ) (d1 : List ℕ) → length d1 < fuel → Ends (find_coding fuel d1)
unfolding find_coding
find_coding-Ends zero d1 enough = absurd (omega arith)
find_coding-Ends (suc fuel) d1 enough =
    let pair = get_variable_value_pair d1 in
    let (fits, below) = get_variable_value_pair_lem d1 in
    elim (Bool-cases (same_word pair.variable (codes "coding"))) [
      | inl found ↦ rw found (some pair.value, refl, fits)
      | inr other ↦ elim (Option-cases pair.next) [
        | inl over ↦ rw (other, over) (none, refl, tt)
        | inr (d2, more) ↦
            let less : length d2 < length d1 = subst (IsBelow (length d1)) more below in
            rw (other, more) (find_coding-Ends fuel d2 (omega (arith, less, enough)))
      ]
    ]

line_coding-Ends : (line : List ℕ) → Ends (line_coding line)
unfolding line_coding
line_coding-Ends line = elim (Option-cases (variables_of line)) [
  | inl no_list ↦ rw (line_coding, no_list) (none, refl, tt)
  | inr (d1, list) ↦ rw (line_coding, list) (find_coding-Ends (length d1 + 1) d1 (omega arith))
]

-- What is behind a newline is shorter.
abbrev IsShorter : ℕ → Option (List ℕ × List ℕ) → Type 0
IsShorter bound none = Unit
IsShorter bound (some found) = length found.1 < bound

split_line-IsShorter : (p : List ℕ) → IsShorter (length p) (split_line p)
unfolding split_line
split_line-IsShorter [] = tt
split_line-IsShorter (c ∷ s) = elim (Bool-cases (c == b'\n')) [
  | inl newline ↦ rw newline (omega arith)
  | inr other ↦ elim (Option-cases (split_line s)) [
    | inl last ↦ rw (other, last) tt
    | inr (found, split) ↦
        let less : length found.1 < length s =
          subst (IsShorter (length s)) split (split_line-IsShorter s) in
        rw (other, split) (omega (arith, less))
  ]
]

check_lines-Ends : (fuel : ℕ) (p : List ℕ) → length p < fuel → Ends (check_lines fuel p)
unfolding check_lines
check_lines-Ends zero p enough = absurd (omega arith)
check_lines-Ends (suc fuel) p enough = elim (Bool-cases (is_comment_line p)) [
  | inr text ↦ rw text (none, refl, tt)
  | inl comment ↦ elim (Option-cases (split_line p)) [
    | inl last ↦ rw (comment, last) (none, refl, tt)
    | inr (found, split) ↦
        let less : length found.1 < length p =
          subst (IsShorter (length p)) split (split_line-IsShorter p) in
        let (r, ended, fits) = line_coding-Ends found.0 in
        elim (Option-cases r) [
          | inl nothing ↦
              rw (comment, split, ended, nothing)
                (check_lines-Ends fuel found.1 (omega (arith, less, enough)))
          | inr (value, coding) ↦
              rw (comment, split, ended, coding) (some value, refl, subst Fits coding fits)
        ]
  ]
]

-- The search for the coding tag ends for every input, with fuel for each byte and one call more, and the
-- value that is found fits in its buffer with a null.
pub check_coding_tag-Ends : (inbuf : Option (List ℕ)) → Ends (check_coding_tag inbuf)
unfolding check_coding_tag
check_coding_tag-Ends none = (none, refl, tt)
check_coding_tag-Ends (some inbuf) = check_lines-Ends (length inbuf + 1) inbuf (omega arith)

-- A mark is looked for in the bytes that are read, and none of them is lost.
find_bom-append :
    (table : List (List ℕ × List ℕ)) (bytes rest : List ℕ)
    → let bom = find_bom table bytes rest in (bom.mark ++ bom.data_read ≡ bytes) × (bom.rest ≡ rest)
unfolding find_bom
find_bom-append [] bytes rest = (refl, refl)
find_bom-append ((str, name) ∷ table) bytes rest = elim (Bool-cases (starts_with str bytes)) [
  | inl marked ↦ rw marked (take-append-drop (length str) bytes, refl)
  | inr other ↦ rw other (find_bom-append table bytes rest)
]

-- The mark, the data and the rest of the file are together the file.
pub get_bom-append :
    (file : List ℕ) → (get_bom file).mark ++ (get_bom file).data_read ++ (get_bom file).rest ≡ file
unfolding get_bom
get_bom-append file =
    let (read, left) = find_bom-append bom_table (take 4 file) (drop 4 file) in
    rw (read, left) (take-append-drop 4 file)
