-- ===== src/Diversion/Tests.antt =====
-- Page traps on a page of eleven inches.
use groff.Prelude.{ℕ, ◌≡◌, refl, none, some, List, [], ◌∷◌, arith, All, ℤ, pos, negsuc}
use groff.Diversion.Traps.{
  Trap, add_trap, change_trap, remove_trap_at, find_next_trap, Found, rename_at, fill_slot,
}
use groff.Diversion.Traps.Next.{find_next_trap-first, Ok, NotLater, place, IsAhead}
use groff.Diversion.Traps.Plant.{trap_at, trap_at-add_trap, remove_trap_at-hidden}
use mathlib.Core.List.{Mem}

abbrev header : ℕ
header = 1

abbrev footer : ℕ
footer = 2

abbrev page : ℤ
page = pos 792000

abbrev planted : List Trap
planted =
    record { position = pos 0; nm = some header }
    ∷ record { position = negsuc 71999; nm = some footer }
    ∷ []

-- A trap at one inch that was removed, before another that was moved there.
abbrev moved : List Trap
moved =
    record { position = pos 72000; nm = none }
    ∷ record { position = pos 72000; nm = some footer }
    ∷ []

find_next_trap-first_example :
    (r : Found) × (find_next_trap page (pos 0) planted ≡ some r)
    × Ok page (pos 0) (λ t. Mem t planted) r
    × All (λ t. IsAhead page (pos 0) t → NotLater r (place page t)) planted
find_next_trap-first_example =
    find_next_trap-first page (pos 0) planted (ground arith) (ground arith) (ground arith)

trap_at-add_trap_example : trap_at (pos 72000) (add_trap footer (pos 72000) planted) ≡ some footer
trap_at-add_trap_example = trap_at-add_trap footer (pos 72000) (pos 72000) planted

remove_trap_at-hidden_example : remove_trap_at (pos 72000) moved ≡ moved
remove_trap_at-hidden_example =
    remove_trap_at-hidden (pos 72000) moved (record { position = pos 72000; nm = none }) refl refl

-- The requests `.wh 1i A`, `.wh 2i B`, `.ch B 1i`, `.wh 1i` and again `.wh 1i` leave B planted.
left_planted :
    trap_at (pos 72000) (
      remove_trap_at (pos 72000) (
        remove_trap_at (pos 72000) (
          change_trap footer
            (pos 72000)
            (add_trap footer (pos 144000) (add_trap header (pos 72000) [])))))
    ≡ some footer
unfolding remove_trap_at change_trap add_trap rename_at fill_slot
left_planted = refl
