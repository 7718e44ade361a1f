-- ===== src/Diversion/Traps.antt =====
-- The list of page location traps of `top_level_diversion`. A symbol is a number; NULL_SYMBOL, which
-- marks a slot that is free, is `none`.
pub mod Next
pub mod Plant
use groff.Prelude.{
  ℕ, zero, suc, ◌+◌, ◌-◌, ◌*◌, ◌/◌, ◌%◌, ◌^◌, ◌≤◌, ◌<◌, ◌≡◌, ◌≢◌, ◌↔◌, ◌⊎◌, refl, sym, ap, ◌∙◌, inl,
  inr, Bool, true, false, not, ◌&&◌, ◌||◌, Option, none, some, List, [], ◌∷◌, ◌++◌, append_assoc,
  append-nil, arith, ltb, leb, ◌==◌, if◌then◌else◌, Bool-cases, Option-cases, codes, length,
  get_elem?, get_or, take, drop, replicate, length-append, length-take, length-drop,
  length-replicate, take-append-drop, All, ℤ, pos, negsuc, pos_part, neg_part, ◌+ℤ◌, ◌-ℤ◌, ◌*ℤ◌,
  ◌≤ℤ◌, ◌<ℤ◌, ltb_ℤ, leb_ℤ, eq_ℤ, minus, neg, quot, rem, mag,
}
use mathlib.Core.Option
use groff.Prelude.Maybe.{◌>>=◌}
use groff.Units.{add_assign}

-- `trap`; the position is the field `n` of a `vunits`.
pub record Trap : Type 0 where
  pub position : ℤ
  pub nm : Option ℕ

abbrev pub has_name : ℕ → Trap → Bool
has_name nam t = elim t.nm [ none ↦ false | some m ↦ m == nam ]

abbrev pub is_free : Trap → Bool
is_free t = elim t.nm [ none ↦ true | some m ↦ false ]

-- The loop of `add_trap` returns at the first trap in use at the position, which gets the name;
unfoldable pub rename_at : ℕ → ℤ → List Trap → Option (List Trap)
rename_at nam place [] = none
rename_at nam place (t ∷ ts) =
    let rest = Option.map (λ us. t ∷ us) (rename_at nam place ts) in
    if not (is_free t) && eq_ℤ t.position place
    then some (record { position = t.position; nm = some nam } ∷ ts)
    else rest

-- behind it, the first free slot is filled, or else a trap is put at the end.
unfoldable pub fill_slot : ℕ → ℤ → List Trap → List Trap
fill_slot nam place [] = record { position = place; nm = some nam } ∷ []
fill_slot nam place (t ∷ ts) =
    if is_free t
    then record { position = place; nm = some nam } ∷ ts
    else t ∷ fill_slot nam place ts

unfoldable pub add_trap : ℕ → ℤ → List Trap → List Trap
add_trap nam place ts = Option.get_or (rename_at nam place ts) (fill_slot nam place ts)

-- The first trap that passes a test is changed. What none passes stays as it is.
abbrev pub change_first : (Trap → Bool) → (Trap → Trap) → List Trap → List Trap
change_first test f [] = []
change_first test f (t ∷ ts) = if test t then f t ∷ ts else t ∷ change_first test f ts

abbrev pub free : Trap → Trap
free t = record { position = t.position; nm = none }

unfoldable pub remove_trap : ℕ → List Trap → List Trap
remove_trap nam = change_first (has_name nam) free

unfoldable pub remove_trap_at : ℤ → List Trap → List Trap
remove_trap_at place = change_first (λ t. eq_ℤ t.position place) free

unfoldable pub change_trap : ℕ → ℤ → List Trap → List Trap
change_trap nam place = change_first (has_name nam) (λ t. record { position = place; nm = t.nm })

-- A trap that is found, and where it springs.
abbrev pub Found : Type 0
Found = Option (Trap × ℤ)

abbrev pub before : ℤ → Found → Bool
before place none = true
before place (some f) = ltb_ℤ place f.1

-- One round of the loop of `find_next_trap`. A negative position counts from the bottom of the page;
-- `none` is the overflow of that sum.
unfoldable pub next_trap_step : ℤ → ℤ → Trap → Found → Option Found
next_trap_step page_length vertical_position t found =
    if is_free t
    then some found
    else if leb_ℤ (pos 0) t.position
    then some (
        if (ltb_ℤ vertical_position t.position && ltb_ℤ t.position page_length)
          && before t.position found
        then some (t, t.position)
        else found)
    else (add_assign t.position page_length >>= λ p. some (
        if (ltb_ℤ (pos 0) p && ltb_ℤ vertical_position p) && before p found
        then some (t, p)
        else found))

unfoldable pub next_trap_loop : ℤ → ℤ → List Trap → Found → Option Found
next_trap_loop page_length vertical_position [] found = some found
next_trap_loop page_length vertical_position (t ∷ ts) found =
    next_trap_step page_length vertical_position t found
    >>= next_trap_loop page_length vertical_position ts

unfoldable pub find_next_trap : ℤ → ℤ → List Trap → Option Found
find_next_trap page_length vertical_position ts =
    next_trap_loop page_length vertical_position ts none
