-- ===== src/Preconv/CodingTag/Written.antt =====
-- A list of variables that is written is read again.
use groff.Prelude.{
  ℕ, zero, suc, ◌≤◌, ◌<◌, ◌≡◌, refl, inl, inr, true, false, Option, none, some, List, [], ◌∷◌, ◌++◌,
  arith, if◌then◌else◌, Bool-cases, codes, length, length-append, All,
}
use groff.Preconv.CodingTag.{
  contains, blanks, skip_while, skip_to, max_var_len, read_word, behind_semicolon, read_value,
  get_variable_value_pair, same_word, find_coding,
}

abbrev pub name_stops : List ℕ
name_stops = b';' ∷ b':' ∷ blanks

abbrev pub value_stops : List ℕ
value_stops = b';' ∷ blanks

-- A word without any of the stops, which fits in the buffer.
abbrev pub IsWord : List ℕ → List ℕ → Type 0
IsWord stops w = All (λ c. contains stops c ≡ false) w × (length w < max_var_len)

-- The pairs as they are written, ` variable: value;` for each.
abbrev pub written : List (List ℕ × List ℕ) → List ℕ
written [] = []
written ((x, v) ∷ es) = b' ' ∷ (x ++ b':' ∷ b' ' ∷ (v ++ b';' ∷ written es))

-- The value of the first variable that is `coding` in lower or upper case.
abbrev pub coding_of : List (List ℕ × List ℕ) → Option (List ℕ)
coding_of [] = none
coding_of ((x, v) ∷ es) = if same_word x (codes "coding") then some v else coding_of es

read_word-append :
    (stops : List ℕ) (room : ℕ) (w : List ℕ) (c : ℕ) (s : List ℕ)
    → All (λ d. contains stops d ≡ false) w
    → length w ≤ room
    → contains stops c ≡ true
    → read_word stops room (w ++ c ∷ s) ≡ (w, c ∷ s)
unfolding read_word
read_word-append stops zero [] c s free fits stop = refl
read_word-append stops (suc room) [] c s free fits stop = rw stop refl
read_word-append stops zero (d ∷ w) c s free fits stop = absurd (omega arith)
read_word-append stops (suc room) (d ∷ w) c s (first, free) fits stop =
    let more = read_word-append stops room w c s free (omega arith) stop in rw (first, more) refl

skip_while-append :
    (these stops : List ℕ) (w : List ℕ) (c : ℕ) (s : List ℕ)
    → ((d : ℕ) → contains stops d ≡ false → contains these d ≡ false)
    → All (λ d. contains stops d ≡ false) w
    → contains these c ≡ false
    → skip_while these (w ++ c ∷ s) ≡ w ++ c ∷ s
unfolding skip_while
skip_while-append these stops [] c s apart free stop = rw stop refl
skip_while-append these stops (d ∷ w) c s apart (first, free) stop = rw (apart d first) refl

name_apart : (d : ℕ) → contains name_stops d ≡ false → contains blanks d ≡ false
unfolding contains
name_apart d h = ground arith

value_apart : (d : ℕ) → contains value_stops d ≡ false → contains blanks d ≡ false
unfolding contains
value_apart d h = ground arith

read_value-written :
    (x v s : List ℕ)
    → IsWord value_stops v
    → read_value x (b':' ∷ b' ' ∷ (v ++ b';' ∷ s))
      ≡ record { variable = x; value = v; next = some s }
unfolding read_value behind_semicolon skip_to contains skip_while
read_value-written x v s (free, fits) =
    let blank = skip_while-append blanks value_stops v b';' s value_apart free refl in
    let word = read_word-append value_stops 99 v b';' s free (omega arith) refl in
    rw (blank, word) refl

get_variable_value_pair-written :
    (x v s : List ℕ)
    → IsWord name_stops x
    → IsWord value_stops v
    → get_variable_value_pair (b' ' ∷ (x ++ b':' ∷ b' ' ∷ (v ++ b';' ∷ s)))
      ≡ record { variable = x; value = v; next = some s }
unfolding get_variable_value_pair skip_while contains skip_to
get_variable_value_pair-written x v s (free, fits) IsWord_v =
    let tail = b' ' ∷ (v ++ b';' ∷ s) in
    let blank = skip_while-append blanks name_stops x b':' tail name_apart free refl in
    let word = read_word-append name_stops 99 x b':' tail free (omega arith) refl in
    rw (blank, word) (read_value-written x v s IsWord_v)

less :
    (x v : List ℕ) (es : List (List ℕ × List ℕ)) (fuel : ℕ)
    → length (written ((x, v) ∷ es)) < suc fuel
    → length (written es) < fuel
less x v es fuel enough =
    let outer = length-append x (b':' ∷ b' ' ∷ (v ++ b';' ∷ written es)) in
    let inner = length-append v (b';' ∷ written es) in omega (arith, outer, inner)

-- The pairs of a list of variables that is written are found: the value of the first variable `coding`, in
-- lower or upper case, or that there is none, where no name has a separator, no value a semicolon or a
-- blank, and all fit in their buffers.
pub find_coding-written :
    (es : List (List ℕ × List ℕ)) (fuel : ℕ)
    → All (λ e. IsWord name_stops e.0 × IsWord value_stops e.1) es
    → length (written es) < fuel
    → find_coding fuel (written es) ≡ some (coding_of es)
unfolding find_coding get_variable_value_pair skip_while read_word skip_to read_value same_word
find_coding-written [] (suc fuel) words enough = refl
find_coding-written ((x, v) ∷ es) (suc fuel) ((IsWord_x, IsWord_v), words) enough =
    let pair = get_variable_value_pair-written x v (written es) IsWord_x IsWord_v in
    let rest = find_coding-written es fuel words (ground (arith, less x v es fuel enough)) in
    elim (Bool-cases (same_word x (codes "coding"))) [
      | inl found ↦ rw (pair, found) refl
      | inr other ↦ rw (pair, other) rest
    ]
find_coding-written es zero words enough = absurd (omega arith)
