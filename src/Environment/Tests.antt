-- ===== src/Environment/Tests.antt =====
-- A line to adjust, and tab stops.
use groff.Prelude.{
  ◌≤◌, ℕ, ◌≡◌, refl, Bool, true, false, some, List, [], ◌∷◌, arith, ℤ, pos, negsuc, ◌+ℤ◌, ◌-ℤ◌,
  ◌*ℤ◌, int_laws,
}
use groff.Environment.Spread.{Node, space_node, other, Distribution, distribute_space, reverse_if}
use groff.Environment.Spread.Even.{evenly}
use groff.Environment.Spread.Total.{total_width, distribute_space-evenly}
use groff.Environment.Tabs.{
  TabStops, tab_left, tab_right, tab_center, NextTab, distance_to_next_tab, next_repeated,
  pass_initial, pass_repeated, add_tab,
}
use groff.Environment.Tabs.Nearest.{IsRegular, IsNextTab, distance_to_next_tab-IsNextTab}
use groff.Environment.Tabs.Request.{
  Argument, AreRegular, configure_tab_stops, read_stops, place_stop, configure_tab_stops-AreRegular,
}
use groff.Environment.Breakpoint.{Breakpoint, LineNode, Settings, choose_breakpoint}
use groff.Environment.Breakpoint.Loose.{HasSums}
use groff.Environment.Breakpoint.Line.{all_breakpoints, IsModerate, choose_breakpoint-choice}
use groff.Units.{subtract_assign, add, subtract, add_assign, plain}
use groff.Int32.{ckd_add, ckd_sub}

-- Three words with a space of 5 between the first two, one that is set, and two of 5.
abbrev words : List Node
words =
    other 1
    ∷ space_node (pos 5) false
    ∷ other 2
    ∷ space_node (pos 9) true
    ∷ space_node (pos 5) false
    ∷ space_node (pos 5) false
    ∷ []

-- Of 8 units the last two spaces get 3 each.
spread_right :
    evenly 2 2 words
    ≡ other 1
      ∷ space_node (pos 7) true
      ∷ other 2
      ∷ space_node (pos 9) true
      ∷ space_node (pos 8) true
      ∷ space_node (pos 8) true
      ∷ []
unfolding ◌+ℤ◌
spread_right = refl

distribute_space-evenly_example :
    (r : Distribution) × (distribute_space words 3 (pos 8) false true ≡ some r)
    × (r.nodes ≡ reverse_if true (evenly 2 2 (reverse_if true words)))
    × (total_width r.nodes ≡ total_width words +ℤ pos 8)
    × (r.distributed ≡ true)
    × (r.do_reverse_node_list ≡ false)
distribute_space-evenly_example =
    distribute_space-evenly words 8 false true (omega arith) (omega arith) (omega arith)
      (ground arith)

-- `.ta 10 25R T8 20C`, at 70.
abbrev stops : TabStops
stops = record {
  initial_list =
      record { position = pos 10; type = tab_left }
      ∷ record { position = pos 25; type = tab_right }
      ∷ [];
  repeated_list =
      record { position = pos 8; type = tab_left }
      ∷ record { position = pos 20; type = tab_center }
      ∷ [];
}

regular : IsRegular (pos 70) stops
unfolding ◌+ℤ◌
regular = record {
  initial = omega arith;
  repeated = omega arith;
  initial_fit = omega arith;
  repeated_fit = ground arith;
}

distance_to_next_tab-IsNextTab_example :
    (n : NextTab) × (distance_to_next_tab 50 (pos 70) stops ≡ some n) × IsNextTab (pos 70) stops n
distance_to_next_tab-IsNextTab_example =
    distance_to_next_tab-IsNextTab 50 (pos 70) stops (omega arith) (omega arith) regular
      (omega int_laws)

at_73 :
    distance_to_next_tab 50 (pos 70) stops
    ≡ some (record { type = tab_left; distance = some (pos 3); nextpos = some (pos 73) })
unfolding distance_to_next_tab next_repeated pass_initial pass_repeated add subtract add_assign
    plain ckd_add ckd_sub ◌+ℤ◌ ◌-ℤ◌
at_73 = refl

-- `.ta 10 +15R T8 4 20C`: the second position is given relative to the first, and 4 is refused.
abbrev arguments : List Argument
arguments =
    record { repeats = false; read = λ p. some (pos 10); type = tab_left }
    ∷ record { repeats = false; read = λ p. some (p +ℤ pos 15); type = tab_right }
    ∷ record { repeats = true; read = λ p. some (pos 8); type = tab_left }
    ∷ record { repeats = false; read = λ p. some (pos 4); type = tab_left }
    ∷ record { repeats = false; read = λ p. some (pos 20); type = tab_center }
    ∷ []

configure_tab_stops-AreRegular_example : AreRegular (configure_tab_stops arguments)
configure_tab_stops-AreRegular_example = configure_tab_stops-AreRegular arguments (ground arith)

configured : configure_tab_stops arguments ≡ stops
unfolding configure_tab_stops read_stops place_stop add_tab ◌+ℤ◌
configured = refl

-- A second `T` begins again at 0, so that `.ta T5 T3` makes stops that go back.
going_back :
    (configure_tab_stops (
      record { repeats = true; read = λ p. some (pos 5); type = tab_left }
      ∷ record { repeats = true; read = λ p. some (pos 3); type = tab_left }
      ∷ [])).repeated_list
    ≡ record { position = pos 5; type = tab_left }
      ∷ record { position = pos 3; type = tab_left }
      ∷ []
unfolding configure_tab_stops read_stops place_stop add_tab
going_back = refl

-- A line of 60 device units, with a breakpoint that is too wide, one at a hyphen, and one at a space.
abbrev settings : ℤ → Settings
settings most = record {
  target_text_length = pos 60;
  adjust_mode = 1;
  hyphen_line_max = negsuc 0;
  hyphen_line_count = pos 0;
  hyphenation_space = most;
  hyphenation_margin = pos 0;
  hresolution = 24;
}

abbrev bp_at : ℕ → ℕ → Bool → Breakpoint
bp_at width index hyphenated = record {
  width = pos width;
  nspaces = pos 5;
  nd = 1;
  index = index;
  hyphenated = hyphenated;
}

abbrev breakpoints : List Breakpoint
breakpoints = bp_at 70 9 false ∷ bp_at 58 8 true ∷ bp_at 50 7 false ∷ []

abbrev line : List LineNode
line =
    record { width = pos 4; nspaces = pos 0; get_breakpoints = λ x s. bp_at 70 9 false ∷ [] }
    ∷ record {
      width = pos 12;
      nspaces = pos 0;
      get_breakpoints = λ x s. bp_at 58 8 true ∷ bp_at 50 7 false ∷ [];
    }
    ∷ []

found_breakpoints : all_breakpoints line (pos 80) (pos 5) ≡ some breakpoints
unfolding subtract_assign plain ◌-ℤ◌
found_breakpoints = refl

-- Where the line ends at the last one, it is 10 units short, and each of five spaces may gain 2.
moderate : IsModerate (settings (pos 2)) breakpoints
unfolding ◌+ℤ◌ ◌-ℤ◌
moderate = record {
  resolution = ground arith;
  count = ground arith;
  sums = (
    sums 70 9 false (ground arith),
    (sums 58 8 true (ground arith), (sums 50 7 false (ground arith), tt)),
  );
}
  where
    sums :
        (w i : ℕ) (hyphenated : Bool) → w ≤ 100 → HasSums (settings (pos 2)) (bp_at w i hyphenated)
    sums w i hyphenated h = record {
      short = ground arith;
      spaces = ground arith;
      total = ground arith;
    }

choose_breakpoint-choice_example :
    choose_breakpoint (settings (pos 2)) (pos 80) (pos 5) line ≡ some (some (bp_at 50 7 false))
unfolding ◌-ℤ◌ ◌*ℤ◌
choose_breakpoint-choice_example =
    choose_breakpoint-choice (settings (pos 2)) (pos 80) (pos 5) line breakpoints found_breakpoints
      moderate (ground arith)
