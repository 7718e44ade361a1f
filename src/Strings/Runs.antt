-- ===== src/Strings/Runs.antt =====
-- Any sequence of changes of a string, and the two that can leave it without the null at its end.
use groff.Prelude.{
  ℕ, ◌+◌, ◌-◌, ◌≡◌, ◌≢◌, refl, false, Option, some, List, [], ◌∷◌, ◌++◌, append-nil, arith, leb,
  length,
}
use groff.Prelude.Maybe.{◌>>=◌}
use groff.Strings.{
  GroffString, bytes, assign, concat, concat_string, append, add_char, clear, copy_to,
}
use groff.Strings.Buffer.{Holds, copy_to-end}
use groff.Strings.Operations.{
  Gives, concat-Holds, concat_string-Holds, append-Holds, add_char-Holds, assign-Holds, clear-Holds,
}

pub data Edit : Type 0 where
  assigned : List ℕ → Edit
  concatenated : List ℕ → Edit
  string_concatenated : GroffString → Edit
  appended : List ℕ → Edit
  char_added : ℕ → Edit
  cleared : Edit

abbrev pub edit : Edit → GroffString → Option GroffString
edit (assigned p) s = assign s p
edit (concatenated p) s = concat s p
edit (string_concatenated t) s = concat_string s t
edit (appended p) s = append s p
edit (char_added c) s = add_char s c
edit cleared s = some (clear s)

-- What becomes of the bytes.
abbrev pub edit_bytes : Edit → List ℕ → List ℕ
edit_bytes (assigned p) bs = p
edit_bytes (concatenated p) bs = bs ++ p
edit_bytes (string_concatenated t) bs = bs ++ bytes t
edit_bytes (appended p) bs = bs ++ p
edit_bytes (char_added c) bs = bs ++ (c ∷ [])
edit_bytes cleared bs = []

-- A string that is concatenated is well formed, and what is appended does not fill the buffer exactly.
abbrev pub CanEdit : Edit → GroffString → Type 0
CanEdit (assigned p) s = Unit
CanEdit (concatenated p) s = Unit
CanEdit (string_concatenated t) s = Holds t (bytes t)
CanEdit (appended p) s = s.len + length p ≢ s.sz
CanEdit (char_added c) s = s.len + 1 ≢ s.sz
CanEdit cleared s = Unit

edit-Holds :
    (e : Edit) (s : GroffString) (bs : List ℕ)
    → Holds s bs
    → CanEdit e s
    → Gives (edit e s) (edit_bytes e bs)
edit-Holds (assigned p) s bs held can = assign-Holds s bs p held
edit-Holds (concatenated p) s bs held can = concat-Holds s bs p held
edit-Holds (string_concatenated t) s bs held can = concat_string-Holds s t bs (bytes t) held can
edit-Holds (appended p) s bs held can = append-Holds s bs p held can
edit-Holds (char_added c) s bs held can = add_char-Holds s bs c held can
edit-Holds cleared s bs held can = (clear s, refl, clear-Holds s bs held)

abbrev pub run : List Edit → GroffString → Option GroffString
run [] s = some s
run (e ∷ es) s = edit e s >>= run es

abbrev pub run_bytes : List Edit → List ℕ → List ℕ
run_bytes [] bs = bs
run_bytes (e ∷ es) bs = run_bytes es (edit_bytes e bs)

-- At every string on the way the next change can be made.
abbrev pub CanRun : List Edit → GroffString → Type 0
CanRun [] s = Unit
CanRun (e ∷ es) s = CanEdit e s × ((t : GroffString) → edit e s ≡ some t → CanRun es t)

-- A string that stands for its bytes and ends in a null does so after any sequence of `operator=`,
-- `operator+=`, `append` and `clear`, none of which writes outside its buffer: it stands for what the same
-- changes make of a sequence of bytes. This leaves out that `append` or `operator+=` for a character fills
-- the buffer exactly.
pub run-Holds :
    (es : List Edit) (s : GroffString) (bs : List ℕ)
    → Holds s bs
    → CanRun es s
    → Gives (run es s) (run_bytes es bs)
run-Holds [] s bs held can = (s, refl, held)
run-Holds (e ∷ es) s bs held can =
    let step = edit-Holds e s bs held can.0 in
    rw step.1 (run-Holds es step.0 (edit_bytes e bs) step.2 (can.1 step.0 step.1))

-- There `operator+=` for a character writes over the last null, and leaves a string whose buffer has no
-- byte behind its characters.
pub add_char-unterminated :
    (s : GroffString) (bs : List ℕ) (c : ℕ)
    → Holds s bs
    → s.len + 1 ≡ s.sz
    → (t : GroffString) × (add_char s c ≡ some t) × (t.ptr ≡ bs ++ (c ∷ [])) × (t.len ≡ t.sz)
unfolding add_char
add_char-unterminated s bs c held full =
    let room : leb s.sz s.len ≡ false = ground arith in
    let one : s.sz - length bs ≡ 1 = omega (arith, held.measured, full) in
    let put = copy_to-end bs (c ∷ []) 1 (omega arith) in
    let filled : copy_to s.ptr s.len (c ∷ []) ≡ some (bs ++ (c ∷ [])) =
      rw (held.content, held.measured, one) (rw append-nil at put) in
    (record { ptr = bs ++ (c ∷ []); len = s.len + 1; sz = s.sz }, rw (room, filled), refl, full)
