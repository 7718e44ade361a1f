-- ===== src/Diversion/Page.antt =====
-- `top_level_diversion` beyond its trap list: beginning a page and moving down on it.
pub mod Moves
pub mod Numbers
pub mod TopTrap
mod Tests
use groff.Prelude.{
  ℕ, zero, suc, ◌+◌, ◌-◌, ◌*◌, ◌/◌, ◌%◌, ◌^◌, ◌≤◌, ◌<◌, ◌≡◌, ◌≢◌, ◌↔◌, ◌⊎◌, refl, sym, ap, ◌∙◌, inl,
  inr, Bool, true, false, not, ◌&&◌, ◌||◌, Option, none, some, List, [], ◌∷◌, ◌++◌, append_assoc,
  append-nil, arith, ltb, leb, ◌==◌, if◌then◌else◌, Bool-cases, Option-cases, codes, length,
  get_elem?, get_or, take, drop, replicate, length-append, length-take, length-drop,
  length-replicate, take-append-drop, All, ℤ, pos, negsuc, pos_part, neg_part, ◌+ℤ◌, ◌-ℤ◌, ◌*ℤ◌,
  ◌≤ℤ◌, ◌<ℤ◌, ltb_ℤ, leb_ℤ, eq_ℤ, minus, neg, quot, rem, mag,
}
use groff.Prelude.Maybe.{◌>>=◌}
use groff.Int32.{int_div}
use groff.Units.{plain, from_units, to_units, add, subtract}
use groff.Diversion.Traps.{Trap, Found, find_next_trap}

-- The fields of `top_level_diversion` and `diversion` that these functions use, and with them the
-- globals that they change. A length is in device units.
pub record Top : Type 0 where
  pub page_number : ℤ
  pub page_count : ℤ
  pub last_page_count : ℤ
  pub page_length : ℤ
  pub page_trap_list : List Trap
  pub overriding_next_page_number : Bool
  pub next_page_number : ℤ
  pub ejecting_page : Bool
  pub before_first_page_status : ℕ
  pub vertical_position : ℤ
  pub high_water_mark : ℤ
  pub is_in_no_space_mode : Bool
  pub has_output : Bool
  pub began_page_in_eoi_macro : Bool
  pub nl_reg_contents : ℤ
  pub truncated_space : ℤ
  pub seen_space : Bool

-- What these functions only read: globals, and what they ask of the environment.
pub record Setting : Type 0 where
  pub vresolution : ℕ
  pub honor_vertical_position_traps : Bool
  pub is_exit_underway : Bool
  pub is_eoi_macro_finished : Bool
  pub seen_last_page_ejector : Bool
  pub last_page_number : ℤ
  pub environment_is_empty : Bool
  pub vertical_spacing : ℤ

-- What is done outside: the output is opened, a page is begun in it, a trap is sprung.
pub data Event : Type 0 where
  init_output : Event
  output_page : ℤ → ℤ → Event
  spring_trap : Option ℕ → Event

-- The program goes on with a result, or has written its trailer and exits, or is undefined.
pub data Outcome (A : Type 0) : Type 0 where
  running : A → Top → List Event → Outcome A
  exits undefined : Outcome A

abbrev pub from_option : {A B : Type 0} → Option A → (A → Outcome B) → Outcome B
from_option none f = undefined
from_option (some a) f = f a

-- The tests with which `begin_page` ends the program.
unfoldable pub is_last_page : Setting → Top → Bool
is_last_page g d =
    (g.is_exit_underway
      && (if eq_ℤ d.page_count d.last_page_count
          then g.environment_is_empty
          else g.is_eoi_macro_finished && (g.seen_last_page_ejector || d.began_page_in_eoi_macro)))
    || (ltb_ℤ (pos 0) g.last_page_number && eq_ℤ d.page_number g.last_page_number)

unfoldable pub new_page_number : Top → Option ℤ
new_page_number d =
    if d.overriding_next_page_number
    then some d.next_page_number
    else if d.before_first_page_status == 1
    then some (pos 1)
    else plain (d.page_number +ℤ pos 1)

-- The state and the events before the trap is sprung; `number` and `count` are the new ones.
unfoldable pub page_begun : Setting → Top → ℤ → ℤ → Top
page_begun g d number count = record d {
  page_count = count;
  overriding_next_page_number = false;
  page_number = number;
  vertical_position = pos 0;
  high_water_mark = pos 0;
  ejecting_page = false;
  before_first_page_status = 0;
  nl_reg_contents = pos 0;
  has_output = true;
  began_page_in_eoi_macro =
      d.began_page_in_eoi_macro || (g.is_exit_underway && not g.is_eoi_macro_finished);
}

unfoldable pub page_events : Top → ℤ → List Event
page_events d number =
    (if d.has_output then [] else init_output ∷ [])
    ++ (if d.before_first_page_status == 2 then [] else output_page number d.page_length ∷ [])

abbrev pub is_at_top : Found → Bool
is_at_top none = false
is_at_top (some f) = eq_ℤ f.1 (pos 0)

abbrev pub found_name : Found → Option ℕ
found_name none = none
found_name (some f) = f.0.nm

-- The end of `begin_page(n)`, with the next trap.
unfoldable pub start_page : Setting → ℤ → Top → ℤ → ℤ → Found → Outcome Bool
start_page g n d count number found =
    let e = page_begun g d number count in
    let events = page_events d number in
    if g.honor_vertical_position_traps && is_at_top found
    then running true (record e { truncated_space = n })
        (events ++ spring_trap (found_name found) ∷ [])
    else running false e events

-- `begin_page(n)`; the search for a trap starts just above the page.
unfoldable pub begin_page : Setting → ℤ → Top → Outcome Bool
begin_page g n d =
    if is_last_page g d
    then exits
    else from_option (plain (d.page_count +ℤ pos 1)) (λ count.
      from_option (new_page_number d) (λ number.
        from_option (from_units g.vresolution (minus g.vresolution)) (λ above.
          from_option (find_next_trap d.page_length above d.page_trap_list)
            (start_page g n d count number))))

-- `seen_space += n / spacing`, on a `bool`.
unfoldable pub count_space : Setting → ℤ → Bool → Option Bool
count_space g n seen =
    let spacing = to_units g.vresolution g.vertical_spacing in
    if eq_ℤ spacing (pos 0)
    then some seen
    else int_div (to_units g.vresolution n) spacing >>= λ q.
        plain ((if seen then pos 1 else pos 0) +ℤ q) >>= λ sum. some (not (eq_ℤ sum (pos 0)))

-- `vertical_position = v`, with the register that follows it.
abbrev pub move_to : Setting → ℤ → Top → Top
move_to g v d = record d { vertical_position = v; nl_reg_contents = to_units g.vresolution v }

abbrev pub is_reached : ℤ → Found → Bool
is_reached y none = false
is_reached y (some f) = leb_ℤ f.1 y

abbrev pub found_place : Found → ℤ
found_place none = pos 0
found_place (some f) = f.1

-- The move to `y`, by the distance `n`, on a page that has begun. The result says whether a trap springs.
unfoldable pub move_down : Setting → ℤ → ℤ → Found → Top → Outcome Bool
move_down g n y found d =
    if g.honor_vertical_position_traps && is_reached y found
    then running true
        (record (move_to g (found_place found) d) {
          truncated_space = subtract y (found_place found);
        })
        (spring_trap (found_name found) ∷ [])
    else if ltb_ℤ y (pos 0)
    then running false (move_to g (pos 0) d) []
    else if g.honor_vertical_position_traps && leb_ℤ d.page_length y && leb_ℤ (pos 0) n
    then begin_page g (subtract y d.page_length) d
    else running false (move_to g y d) []

-- `space(n, forcing)`
unfoldable pub space : Setting → ℤ → Bool → Top → Outcome Bool
space g n forcing d =
    if d.is_in_no_space_mode && not forcing
    then running false d []
    else (let e = record d { is_in_no_space_mode = false } in
        if ltb 0 d.before_first_page_status
        then begin_page g n e
        else from_option (find_next_trap d.page_length d.vertical_position d.page_trap_list)
            (λ found. from_option (count_space g n d.seen_space) (λ seen.
              move_down g n (add d.vertical_position n) found (record e { seen_space = seen }))))

unfoldable pub distance_to_next_trap : Top → Option ℤ
distance_to_next_trap d =
    find_next_trap d.page_length d.vertical_position d.page_trap_list >>= λ found.
    some (elim found [
      | none ↦ subtract d.page_length d.vertical_position
      | some f ↦ subtract f.1 d.vertical_position
    ])

unfoldable pub set_next_page_number : ℤ → Top → Top
set_next_page_number n d = record d { next_page_number = n; overriding_next_page_number = true }

unfoldable pub get_next_page_number : Top → Option ℤ
get_next_page_number d =
    if d.overriding_next_page_number
    then some d.next_page_number
    else plain (d.page_number +ℤ pos 1)

unfoldable pub set_page_length : ℤ → Top → Top
set_page_length n d = record d { page_length = n }
