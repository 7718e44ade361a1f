-- ===== src/Strings/Tests.antt =====
-- Strings from the empty one on.
use groff.Prelude.{◌+◌, ◌≡◌, ◌≢◌, refl, some, List, [], ◌∷◌, ◌++◌, arith, codes, replicate}
use groff.Strings.{GroffString, add_char, empty_string, salloc}
use groff.Strings.Buffer.{Holds}
use groff.Strings.Operations.{Gives}
use groff.Strings.Runs.{
  Edit, concatenated, char_added, assigned, run, run-Holds, add_char-unterminated,
}

empty-Holds : Holds empty_string []
unfolding empty_string salloc
empty-Holds = record { content = refl; measured = refl; terminated = omega arith }

abbrev edits : List Edit
edits =
    char_added b'y'
    ∷ concatenated (codes "tbl")
    ∷ concatenated (replicate 70 b'x')
    ∷ assigned (codes "eqn")
    ∷ []

room_for_one : empty_string.len + 1 ≢ empty_string.sz
unfolding empty_string salloc
room_for_one full = omega (arith, full)

run-Holds_example : Gives (run edits empty_string) (codes "eqn")
run-Holds_example =
    run-Holds edits empty_string [] empty-Holds
      (room_for_one, λ t e. (tt, λ u f. (tt, λ v g. (tt, λ w h. tt))))

-- After 63 characters there is room for the null only.
abbrev nearly_full : GroffString
nearly_full = record { ptr = replicate 63 b'x' ++ (0 ∷ []); len = 63; sz = 64 }

nearly_full-Holds : Holds nearly_full (replicate 63 b'x')
nearly_full-Holds = record { content = refl; measured = refl; terminated = omega arith }

add_char-unterminated_example :
    (t : GroffString) × (add_char nearly_full b'y' ≡ some t)
    × (t.ptr ≡ replicate 63 b'x' ++ (b'y' ∷ []))
    × (t.len ≡ t.sz)
add_char-unterminated_example =
    add_char-unterminated nearly_full (replicate 63 b'x') b'y' nearly_full-Holds refl
