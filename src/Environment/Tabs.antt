-- ===== src/Environment/Tabs.antt =====
-- `tab_stops` of env.cpp and env.h: a list of tab stops, and one that repeats behind it. Positions are the
-- field `n` of an `hunits`.
pub mod Next
pub mod Repeat
pub mod Nearest
pub mod Request
use groff.Prelude.{
  ℕ, zero, suc, ◌+◌, ◌-◌, ◌*◌, ◌/◌, ◌%◌, ◌^◌, ◌≤◌, ◌<◌, ◌≡◌, ◌≢◌, ◌↔◌, ◌⊎◌, refl, sym, ap, ◌∙◌, inl,
  inr, Bool, true, false, not, ◌&&◌, ◌||◌, Option, none, some, List, [], ◌∷◌, ◌++◌, append_assoc,
  append-nil, arith, ltb, leb, ◌==◌, if◌then◌else◌, Bool-cases, Option-cases, ==_iff, ==→eq, ltb→lt,
  leb→le, codes, length, get_elem?, get_or, take, drop, replicate, length-append, length-take,
  length-drop, length-replicate, take-append-drop, All, ℤ, pos, negsuc, pos_part, neg_part, ◌+ℤ◌,
  ◌-ℤ◌, ◌*ℤ◌, ◌≤ℤ◌, ◌<ℤ◌, ltb_ℤ, leb_ℤ, eq_ℤ, minus, neg, quot, rem, mag, int_laws, eq_of_parts,
}
use groff.Prelude.Maybe.{◌>>=◌}
use groff.Units.{add, subtract, add_assign}

pub data TabType : Type 0 where
  tab_none : TabType
  tab_left : TabType
  tab_center : TabType
  tab_right : TabType

pub record Tab : Type 0 where
  pub position : ℤ
  pub type : TabType

pub record TabStops : Type 0 where
  pub initial_list : List Tab
  pub repeated_list : List Tab

-- The stop at the end of a list.
abbrev pub append_tab : List Tab → Tab → List Tab
append_tab [] t = t ∷ []
append_tab (u ∷ us) t = u ∷ append_tab us t

unfoldable pub add_tab : ℤ → TabType → Bool → TabStops → TabStops
add_tab position type is_repeated ts =
    let t : Tab = record { position = position; type = type } in
    if is_repeated
    then record { initial_list = ts.initial_list; repeated_list = append_tab ts.repeated_list t }
    else record { initial_list = append_tab ts.initial_list t; repeated_list = ts.repeated_list }

-- The stops of a list that are not behind the current position are passed. What is left is the position
-- of the last one passed, if there is one, and the stops from the next one on.
unfoldable pub pass_initial : ℤ → List Tab → ℤ → ℤ × List Tab
pass_initial curpos [] lastpos = (lastpos, [])
pass_initial curpos (t ∷ ts) lastpos =
    if leb_ℤ t.position curpos then pass_initial curpos ts t.position else (lastpos, t ∷ ts)

unfoldable pub pass_repeated : ℤ → ℤ → List Tab → ℤ → ℤ × List Tab
pass_repeated curpos base [] lastpos = (lastpos, [])
pass_repeated curpos base (t ∷ ts) lastpos =
    if leb_ℤ (add t.position base) curpos
    then pass_repeated curpos base ts t.position
    else (lastpos, t ∷ ts)

-- The type of the next stop, its distance and its position, which have no value where there is no stop.
pub record NextTab : Type 0 where
  pub type : TabType
  pub distance : Option ℤ
  pub nextpos : Option ℤ

abbrev pub no_tab : NextTab
no_tab = record { type = tab_none; distance = none; nextpos = none }

abbrev pub initial_tab : ℤ → Tab → NextTab
initial_tab curpos t = record {
  type = t.type;
  distance = some (subtract t.position curpos);
  nextpos = some t.position;
}

abbrev pub repeated_tab : ℤ → ℤ → Tab → NextTab
repeated_tab curpos base t = record {
  type = t.type;
  distance = some (subtract (add t.position base) curpos);
  nextpos = some (add t.position base);
}

-- One round of the loop with no condition: a stop was found, or `more` is the next round.
abbrev pub next_round : (ℤ → ℤ → Option NextTab) → ℤ → ℤ → ℤ × List Tab → Option NextTab
next_round more curpos base (lastpos, []) =
    let last = if ltb_ℤ lastpos (pos 0) then pos 0 else lastpos in
    add_assign base last >>= λ b. more b last
next_round more curpos base (lastpos, t ∷ ts) = some (repeated_tab curpos base t)

-- The loop, for at most `fuel` rounds.
unfoldable pub next_repeated : ℕ → ℤ → List Tab → ℤ → ℤ → Option NextTab
next_repeated zero curpos repeated_list base lastpos = none
next_repeated (suc fuel) curpos repeated_list base lastpos =
    next_round (next_repeated fuel curpos repeated_list) curpos base
      (pass_repeated curpos base repeated_list lastpos)

abbrev pub behind_initial : ℕ → ℤ → List Tab → ℤ × List Tab → Option NextTab
behind_initial fuel curpos [] (lastpos, []) = some no_tab
behind_initial fuel curpos (r ∷ rs) (lastpos, []) =
    next_repeated fuel curpos (r ∷ rs) lastpos lastpos
behind_initial fuel curpos repeated_list (lastpos, t ∷ ts) = some (initial_tab curpos t)

unfoldable pub distance_to_next_tab : ℕ → ℤ → TabStops → Option NextTab
distance_to_next_tab fuel curpos ts =
    behind_initial fuel curpos ts.repeated_list (pass_initial curpos ts.initial_list (pos 0))
