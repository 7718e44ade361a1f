-- ===== src/Preconv/TagLines.antt =====
-- `get_tag_lines`: the first two lines of a file, which can hold a coding tag, are read ahead. A file is
-- the list of its bytes that are still to be read.
pub mod Lossless
use groff.Prelude.{
  ℕ, zero, suc, ◌+◌, ◌-◌, ◌*◌, ◌/◌, ◌%◌, ◌^◌, ◌≤◌, ◌<◌, ◌≡◌, ◌≢◌, ◌↔◌, ◌⊎◌, refl, sym, ap, ◌∙◌, inl,
  inr, Bool, true, false, not, ◌&&◌, ◌||◌, Option, none, some, List, [], ◌∷◌, ◌++◌, append_assoc,
  append-nil, arith, ltb, leb, ◌==◌, if◌then◌else◌, Bool-cases, Option-cases, codes, length,
  get_elem?, get_or, take, drop, replicate, length-append, length-take, length-drop,
  length-replicate, take-append-drop, All, ℤ, pos, negsuc, pos_part, neg_part, ◌+ℤ◌, ◌-ℤ◌, ◌*ℤ◌,
  ◌≤ℤ◌, ◌<ℤ◌, ltb_ℤ, leb_ℤ, eq_ℤ, minus, neg, quot, rem, mag,
}

abbrev pub cr : ℕ
cr = 13

abbrev pub lf : ℕ
lf = 10

-- The number of lines that end in the data, with LF, CR or both; a CR and LF is counted up and down. `prev`
-- is the byte before.
unfoldable pub count_newlines : ℕ → ℕ → List ℕ → ℕ
count_newlines n prev [] = n
count_newlines n prev (c ∷ data_left) =
    let up = (if c == lf || c == cr then n + 1 else n) in
    count_newlines (if c == lf && prev == cr then up - 1 else up) c data_left

-- The bytes of one line, the last byte read, if any, and the rest of the file.
pub record Line : Type 0 where
  pub bytes : List ℕ
  pub last : Option ℕ
  pub rest : List ℕ

unfoldable pub read_line : List ℕ → Line
read_line [] = record { bytes = []; last = none; rest = [] }
read_line (c ∷ file) =
    let more = read_line file in
    if c == lf || c == cr
    then record { bytes = c ∷ []; last = some c; rest = file }
    else record more { bytes = c ∷ more.bytes }

-- Behind a CR: a LF is taken too, and any other byte is put back. At the end of the file `char(EOF)` is
-- added to the data.
unfoldable pub behind_cr : List ℕ → List ℕ × List ℕ
behind_cr [] = (255 ∷ [], [])
behind_cr (c ∷ file) = if c == lf then (c ∷ [], file) else ([], c ∷ file)

abbrev pub is_cr : Option ℕ → Bool
is_cr none = false
is_cr (some c) = c == cr

-- A whole round of the loop: what is added to the data, and the rest of the file.
unfoldable pub read_round : List ℕ → List ℕ × List ℕ
read_round file =
    let line = read_line file in
    if is_cr line.last
    then (line.bytes ++ (behind_cr line.rest).0, (behind_cr line.rest).1)
    else (line.bytes, line.rest)

unfoldable pub read_rounds : ℕ → List ℕ → List ℕ × List ℕ
read_rounds zero file = ([], file)
read_rounds (suc rounds) file =
    let (bytes, left) = read_round file in
    let (more, rest) = read_rounds rounds left in (bytes ++ more, rest)

-- `string::extract` leaves out the bytes that are 0.
abbrev pub extract : List ℕ → List ℕ
extract [] = []
extract (c ∷ s) = if c == 0 then extract s else c ∷ extract s

-- The lines, if the data do not already have two of them, with the data and the rest of the file.
unfoldable pub get_tag_lines : List ℕ → List ℕ → Option (List ℕ) × List ℕ × List ℕ
get_tag_lines read file =
    let count = count_newlines 0 0 read in
    let (bytes, rest) = read_rounds (2 - count) file in
    if ltb 1 count
    then (none, read, file)
    else (some (extract (read ++ bytes)), read ++ bytes, rest)
