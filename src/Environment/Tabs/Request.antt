-- ===== src/Environment/Tabs/Request.antt =====
-- The request `ta`, which sets the tab stops: `configure_tab_stops_request` of env.cpp.
use groff.Prelude.{
  ◌≡◌, ◌⊎◌, refl, sym, ◌∙◌, inl, inr, Bool, true, false, not, ◌&&◌, ◌||◌, Option, none, some, List,
  [], ◌∷◌, arith, if◌then◌else◌, Bool-cases, Option-cases, ℤ, pos, ◌<ℤ◌, leb_ℤ,
}
use groff.Environment.Tabs.{Tab, TabStops, TabType, add_tab, append_tab}
use groff.Environment.Tabs.Next.{AreIncreasing, last_position}
use groff.Environment.Tabs.Nearest.{IsInitial}

-- An argument: whether TAB_REPEAT_CHAR stands before it, what `read_hunits` reads there, which can depend
-- on the position before it, and its type.
pub record Argument : Type 0 where
  pub repeats : Bool
  pub read : ℤ → Option ℤ
  pub type : TabType

pub record Configuration : Type 0 where
  pub tabs : TabStops
  pub prev_pos : ℤ
  pub is_first_stop : Bool
  pub is_repeating_stop : Bool

-- `T` before an argument.
abbrev pub repeat_from : Bool → Configuration → Configuration
repeat_from b s =
    if b
    then record {
      tabs = s.tabs;
      prev_pos = pos 0;
      is_first_stop = s.is_first_stop;
      is_repeating_stop = true;
    }
    else s

-- A position that is not beyond the one before it is refused, unless it is the first.
unfoldable pub place_stop : ℤ → TabType → Configuration → Configuration
place_stop position type s =
    if leb_ℤ position s.prev_pos && (not s.is_first_stop || s.is_repeating_stop)
    then s
    else record {
      tabs = add_tab position type s.is_repeating_stop s.tabs;
      prev_pos = position;
      is_first_stop = false;
      is_repeating_stop = s.is_repeating_stop;
    }

-- What cannot be read ends the loop.
abbrev pub place_read :
    Option ℤ → TabType → (Configuration → Configuration) → Configuration → Configuration
place_read none type more s = s
place_read (some position) type more s = more (place_stop position type s)

unfoldable pub read_stops : List Argument → Configuration → Configuration
read_stops [] s = s
read_stops (a ∷ args) s =
    let t = repeat_from a.repeats s in place_read (a.read t.prev_pos) a.type (read_stops args) t

unfoldable pub configure_tab_stops : List Argument → TabStops
configure_tab_stops args =
    (read_stops args (record {
      tabs = record { initial_list = []; repeated_list = [] };
      prev_pos = pos 0;
      is_first_stop = true;
      is_repeating_stop = false;
    })).tabs

-- `T` is given once at most, and not again behind a first one.
abbrev pub RepeatsOnce : Bool → List Argument → Type 0
RepeatsOnce b [] = Unit
RepeatsOnce b (a ∷ args) = (b && a.repeats ≡ false) × RepeatsOnce (b || a.repeats) args

abbrev pub AreRegular : TabStops → Type 0
AreRegular ts = IsInitial ts.initial_list × AreIncreasing (pos 0) ts.repeated_list

-- The previous position is that of the last stop of the list that is being made.
record IsMaking (s : Configuration) : Type 0 where
  initial : IsInitial s.tabs.initial_list
  repeated : AreIncreasing (pos 0) s.tabs.repeated_list
  last_repeated :
      s.is_repeating_stop ≡ true → s.prev_pos ≡ last_position (pos 0) s.tabs.repeated_list
  none_repeated : s.is_repeating_stop ≡ false → s.tabs.repeated_list ≡ []
  last_initial :
      s.is_repeating_stop ≡ false → s.prev_pos ≡ last_position (pos 0) s.tabs.initial_list
  first : s.is_first_stop ≡ true → s.is_repeating_stop ≡ false → s.tabs.initial_list ≡ []

append_tab-AreIncreasing :
    (p : ℤ) (ts : List Tab) (t : Tab)
    → AreIncreasing p ts
    → last_position p ts <ℤ t.position
    → AreIncreasing p (append_tab ts t)
append_tab-AreIncreasing p [] t inc less = (less, tt)
append_tab-AreIncreasing p (u ∷ us) t inc less =
    (inc.0, append_tab-AreIncreasing u.position us t inc.1 less)

append_tab-last_position :
    (p : ℤ) (ts : List Tab) (t : Tab) → last_position p (append_tab ts t) ≡ t.position
append_tab-last_position p [] t = refl
append_tab-last_position p (u ∷ us) t = append_tab-last_position u.position us t

append_tab-IsInitial :
    (p : ℤ) (ts : List Tab) (t : Tab)
    → IsInitial ts
    → (ts ≡ []) ⊎ (last_position p ts <ℤ t.position)
    → IsInitial (append_tab ts t)
append_tab-IsInitial p [] t inc less = tt
append_tab-IsInitial p (u ∷ us) t inc (inl none_yet) = absurd (ground arith)
append_tab-IsInitial p (u ∷ us) t inc (inr less) = append_tab-AreIncreasing u.position us t inc less

repeat_from-IsMaking :
    (b : Bool) (s : Configuration)
    → (s.is_repeating_stop && b ≡ false)
    → IsMaking s
    → IsMaking (repeat_from b s)
repeat_from-IsMaking false s once making = making
repeat_from-IsMaking true s once making =
    let before : s.is_repeating_stop ≡ false = ground arith in
    record {
      initial = making.initial;
      repeated = making.repeated;
      last_repeated = λ e. rw (making.none_repeated before) refl;
      none_repeated = λ e. absurd (ground arith);
      last_initial = λ e. absurd (ground arith);
      first = λ e f. absurd (ground arith);
    }

-- A stop that is taken is beyond those of its list.
add_tab-IsMaking :
    (position : ℤ) (type : TabType) (s : Configuration)
    → (leb_ℤ position s.prev_pos && (not s.is_first_stop || s.is_repeating_stop)) ≡ false
    → IsMaking s
    → IsMaking (record {
      tabs = add_tab position type s.is_repeating_stop s.tabs;
      prev_pos = position;
      is_first_stop = false;
      is_repeating_stop = s.is_repeating_stop;
    })
unfolding add_tab
add_tab-IsMaking position type s taken making = elim (Bool-cases s.is_repeating_stop) [
  | inl repeating ↦ rw repeating (
      let t : Tab = record { position = position; type = type } in
      let last = making.last_repeated repeating in
      let beyond : s.prev_pos <ℤ position = ground arith in
      let less : last_position (pos 0) s.tabs.repeated_list <ℤ position = rw last at beyond in
      record {
        initial = making.initial;
        repeated = append_tab-AreIncreasing (pos 0) s.tabs.repeated_list t making.repeated less;
        last_repeated = λ e. sym (append_tab-last_position (pos 0) s.tabs.repeated_list t);
        none_repeated = λ e. absurd (ground arith);
        last_initial = λ e. absurd (ground arith);
        first = λ e f. absurd (ground arith);
      })
  | inr plain ↦ rw plain (
      let t : Tab = record { position = position; type = type } in
      let last = making.last_initial plain in
      let beyond : (s.tabs.initial_list ≡ [])
          ⊎ (last_position (pos 0) s.tabs.initial_list <ℤ position) =
        elim (Bool-cases s.is_first_stop) [
          | inl first ↦ inl (making.first first plain)
          | inr later ↦ (let less : s.prev_pos <ℤ position = ground arith in inr (rw last at less))
        ] in
      record {
        initial = append_tab-IsInitial (pos 0) s.tabs.initial_list t making.initial beyond;
        repeated = making.repeated;
        last_repeated = λ e. absurd (ground arith);
        none_repeated = λ e. making.none_repeated plain;
        last_initial = λ e. sym (append_tab-last_position (pos 0) s.tabs.initial_list t);
        first = λ e f. absurd (ground arith);
      })
]

place_stop-IsMaking :
    (position : ℤ) (type : TabType) (s : Configuration)
    → IsMaking s
    → IsMaking (place_stop position type s)
      × ((place_stop position type s).is_repeating_stop ≡ s.is_repeating_stop)
unfolding place_stop
place_stop-IsMaking position type s making =
    elim (Bool-cases (leb_ℤ position s.prev_pos && (not s.is_first_stop || s.is_repeating_stop))) [
      | inl refused ↦ rw refused ((making, refl))
      | inr taken ↦ rw taken ((add_tab-IsMaking position type s taken making, refl))
    ]

repeat_from-is_repeating_stop :
    (b : Bool) (s : Configuration) → (repeat_from b s).is_repeating_stop ≡ s.is_repeating_stop || b
repeat_from-is_repeating_stop true s = ground arith
repeat_from-is_repeating_stop false s = ground arith

read_stops-IsMaking :
    (args : List Argument) (s : Configuration)
    → RepeatsOnce s.is_repeating_stop args
    → IsMaking s
    → IsMaking (read_stops args s)
unfolding read_stops
read_stops-IsMaking [] s once making = making
read_stops-IsMaking (a ∷ args) s once making =
    let t = repeat_from a.repeats s in
    let made = repeat_from-IsMaking a.repeats s once.0 making in
    elim (Option-cases (a.read t.prev_pos)) [
      | inl unread ↦ rw unread made
      | inr (position, e) ↦
          (let placed = place_stop-IsMaking position a.type t made in
            let same = placed.1 ∙ repeat_from-is_repeating_stop a.repeats s in
            rw e
              (read_stops-IsMaking args (place_stop position a.type t) (rw same once.1) placed.0))
    ]

-- The request `ta` makes regular tab stops, where `T` is given once at most: in each list every position
-- is beyond the one before it, and those that repeat are positive. The positions can be any numbers, and
-- depend on the ones before them; what cannot be read ends the stops.
pub configure_tab_stops-AreRegular :
    (args : List Argument) → RepeatsOnce false args → AreRegular (configure_tab_stops args)
unfolding configure_tab_stops
configure_tab_stops-AreRegular args once =
    let made =
      read_stops-IsMaking args
        (record {
          tabs = record { initial_list = []; repeated_list = [] };
          prev_pos = pos 0;
          is_first_stop = true;
          is_repeating_stop = false;
        })
        once
        (record {
          initial = tt;
          repeated = tt;
          last_repeated = λ e. refl;
          none_repeated = λ e. refl;
          last_initial = λ e. refl;
          first = λ e f. refl;
        }) in
    (made.initial, made.repeated)
