-- ===== src/Diversion/Page/Tests.antt =====
-- A page with a header and a footer, on a device with one basic unit to the device unit.
use groff.Prelude.{
  ◌≡◌, ◌≢◌, ◌↔◌, refl, Bool, true, false, none, some, List, [], ◌∷◌, arith, pos, negsuc, ◌+ℤ◌, ◌*ℤ◌,
  quot,
}
use groff.Int32.{ckd_mul, int_div}
use groff.Units.{from_units, to_units, plain}
use groff.Diversion.Page.{
  Top, Setting, begin_page, space, count_space, set_next_page_number, new_page_number,
}
use groff.Diversion.Traps.Plant.{trap_at}
use groff.Diversion.Page.TopTrap.{begin_page-top}
use groff.Diversion.Page.{is_last_page, Event, running}
use groff.Diversion.Page.Moves.{Leaves, Keeps, MayBegin, IsOnPage, CanBegin, space-Stays}
use groff.Diversion.Page.Numbers.{IsNumbered, begin_page-set_next_page_number}

abbrev device : Setting
device = record {
  vresolution = 1;
  honor_vertical_position_traps = true;
  is_exit_underway = false;
  is_eoi_macro_finished = false;
  seen_last_page_ejector = false;
  last_page_number = pos 0;
  environment_is_empty = true;
  vertical_spacing = pos 12;
}

abbrev letter : Top
letter = record {
  page_number = pos 0;
  page_count = pos 0;
  last_page_count = negsuc 0;
  page_length = pos 792;
  page_trap_list =
      record { position = pos 0; nm = some 1 } ∷ record { position = negsuc 71; nm = some 2 } ∷ [];
  overriding_next_page_number = false;
  next_page_number = pos 0;
  ejecting_page = false;
  before_first_page_status = 1;
  vertical_position = pos 0;
  high_water_mark = pos 0;
  is_in_no_space_mode = false;
  has_output = false;
  began_page_in_eoi_macro = false;
  nl_reg_contents = negsuc 0;
  truncated_space = pos 0;
  seen_space = false;
}

letter-IsOnPage : IsOnPage letter
letter-IsOnPage = ground arith

CanBegin-letter : CanBegin device letter
unfolding new_page_number from_units plain ◌+ℤ◌
CanBegin-letter = (λ e. ground (arith, e), λ e. ground (arith, e), λ e. ground (arith, e))

CanBegin-seven : CanBegin device (set_next_page_number (pos 7) letter)
unfolding new_page_number from_units plain ◌+ℤ◌ set_next_page_number
CanBegin-seven = (λ e. ground (arith, e), λ e. ground (arith, e), λ e. ground (arith, e))

counted : count_space device (pos 900) false ≡ some true
unfolding count_space to_units plain ckd_mul int_div quot ◌+ℤ◌ ◌*ℤ◌
counted = refl

can_count : count_space device (pos 900) false ≢ none
can_count e = absurd (ground (arith, counted, e))

begin_page-set_next_page_number_example :
    Leaves Unit
      (IsNumbered (pos 7) (pos 0 +ℤ pos 1))
      (begin_page device (pos 0) (set_next_page_number (pos 7) letter))
begin_page-set_next_page_number_example =
    begin_page-set_next_page_number device (pos 0) (pos 7) letter letter-IsOnPage CanBegin-seven

-- The same page, begun.
abbrev begun : Top
begun = record letter { before_first_page_status = 0; page_number = pos 1 }

CanBegin-begun : CanBegin device begun
unfolding new_page_number from_units plain ◌+ℤ◌
CanBegin-begun = (λ e. ground (arith, e), λ e. ground (arith, e), λ e. ground (arith, e))

space-Stays_example :
    Leaves (MayBegin begun) (Keeps (pos 900) begun) (space device (pos 900) false begun)
space-Stays_example =
    space-Stays device (pos 900) false begun refl letter-IsOnPage CanBegin-begun can_count

goes_on : is_last_page device letter ≡ false
unfolding is_last_page
goes_on = refl

begin_page-top_example :
    (b : Bool) × (e : Top) × (events : List Event) × (begin_page device (pos 0) letter
      ≡ running b e events)
    × ((b ≡ true) ↔ ((true ≡ true) × (trap_at (pos 0) letter.page_trap_list ≢ none)))
begin_page-top_example =
    begin_page-top device (pos 0) letter goes_on letter-IsOnPage (ground arith) CanBegin-letter
      (ground arith) (ground arith)
