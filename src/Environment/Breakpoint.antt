-- ===== src/Environment/Breakpoint.antt =====
-- `environment::choose_breakpoint` of env.cpp, which chooses where an output line ends. The breakpoints of
-- a node are those of its virtual function `get_breakpoints`, a parameter here. `none` is undefined
-- behaviour.
pub mod Loose
pub mod Choice
pub mod Line
use groff.Prelude.{
  ℕ, zero, suc, ◌+◌, ◌-◌, ◌*◌, ◌/◌, ◌%◌, ◌^◌, ◌≤◌, ◌<◌, ◌≡◌, ◌≢◌, ◌↔◌, ◌⊎◌, refl, sym, ap, ◌∙◌, inl,
  inr, Bool, true, false, not, ◌&&◌, ◌||◌, Option, none, some, List, [], ◌∷◌, ◌++◌, append_assoc,
  append-nil, arith, ltb, leb, ◌==◌, if◌then◌else◌, Bool-cases, Option-cases, ==_iff, ==→eq, ltb→lt,
  leb→le, codes, length, get_elem?, get_or, take, drop, replicate, length-append, length-take,
  length-drop, length-replicate, take-append-drop, All, ℤ, pos, negsuc, pos_part, neg_part, ◌+ℤ◌,
  ◌-ℤ◌, ◌*ℤ◌, ◌≤ℤ◌, ◌<ℤ◌, ltb_ℤ, leb_ℤ, eq_ℤ, minus, neg, quot, rem, mag, int_laws, eq_of_parts,
}
use groff.Prelude.Maybe.{◌>>=◌}
use groff.Units.{from_units, subtract, add, divide, subtract_assign, plain, is_zero}

pub record Breakpoint : Type 0 where
  pub width : ℤ
  pub nspaces : ℤ
  pub nd : ℕ
  pub index : ℕ
  pub hyphenated : Bool

-- What the choice asks of a node of the line.
pub record LineNode : Type 0 where
  pub width : ℤ
  pub nspaces : ℤ
  pub get_breakpoints : ℤ → ℤ → List Breakpoint

abbrev pub adjust_both : ℕ
adjust_both = 1

-- The fields of the environment that the choice depends on, and the horizontal resolution.
pub record Settings : Type 0 where
  pub target_text_length : ℤ
  pub adjust_mode : ℕ
  pub hyphen_line_max : ℤ
  pub hyphen_line_count : ℤ
  pub hyphenation_space : ℤ
  pub hyphenation_margin : ℤ
  pub hresolution : ℕ

-- One more hyphenated line is within the limit.
unfoldable pub may_hyphenate : Settings → Option Bool
may_hyphenate e =
    if ltb_ℤ e.hyphen_line_max (pos 0)
    then some true
    else (plain (e.hyphen_line_count +ℤ pos 1) >>= λ count. some (leb_ℤ count e.hyphen_line_max))

-- What each space of the line would gain, rounded up.
unfoldable pub gain : Settings → Breakpoint → Option ℤ
gain e bp =
    plain ((bp.nspaces -ℤ pos 1) *ℤ pos e.hresolution) >>= from_units e.hresolution >>= λ rounding.
    divide (add (subtract e.target_text_length bp.width) rounding) bp.nspaces

-- The line that ends here need not be hyphenated to look well.
unfoldable pub is_even_enough : Settings → Breakpoint → Option Bool
is_even_enough e bp =
    if e.adjust_mode == adjust_both
    then (if ltb_ℤ (pos 0) bp.nspaces
        then (gain e bp >>= λ g. some (leb_ℤ g e.hyphenation_space))
        else some false)
    else some (leb_ℤ (subtract e.target_text_length bp.width) e.hyphenation_margin)

-- The best breakpoint so far, and whether it fits.
pub record Best : Type 0 where
  pub best_bp : Option Breakpoint
  pub best_bp_fits : Bool

pub data Step : Type 0 where
  returned : Option Breakpoint → Step
  looking : Best → Step

abbrev pub fits : Settings → Breakpoint → Bool
fits e bp = leb_ℤ bp.width e.target_text_length

-- The hyphenated breakpoint found before it is preferred to one that fits and is not hyphenated.
unfoldable pub prefer_hyphenated : Settings → Best → Breakpoint → Option Bool
prefer_hyphenated e best bp =
    if best.best_bp_fits
    then (may_hyphenate e >>= λ may.
        if may then (is_even_enough e bp >>= λ even. some (not even)) else some false)
    else some false

-- No breakpoint that is not hyphenated needs to be considered.
unfoldable pub is_eager : Settings → Option Bool
is_eager e =
    if (if e.adjust_mode == adjust_both
      then is_zero e.hyphenation_space
      else is_zero e.hyphenation_margin)
    then may_hyphenate e
    else some false

unfoldable pub consider : Settings → Best → Breakpoint → Option Step
consider e best bp =
    if fits e bp
    then (if not bp.hyphenated
        then (prefer_hyphenated e best bp >>= λ hyphenated.
            some (returned (if hyphenated then best.best_bp else some bp)))
        else (is_eager e >>= λ eager. some (
            if eager
            then returned (some bp)
            else if not best.best_bp_fits
            then looking (record { best_bp = some bp; best_bp_fits = true })
            else looking best)))
    else some (looking (record { best_bp = some bp; best_bp_fits = best.best_bp_fits }))

abbrev pub go_on : Step → (Best → Option Step) → Option Step
go_on (returned bp) more = some (returned bp)
go_on (looking best) more = more best

-- The inner loop, over the breakpoints of a node, and the outer one, over the nodes.
unfoldable pub consider_all : Settings → List Breakpoint → Best → Option Step
consider_all e [] best = some (looking best)
consider_all e (bp ∷ bps) best = consider e best bp >>= λ step. go_on step (consider_all e bps)

unfoldable pub consider_nodes : Settings → List LineNode → ℤ → ℤ → Best → Option Step
consider_nodes e [] x s best = some (looking best)
consider_nodes e (nd ∷ line) x s best = subtract_assign x nd.width >>= λ y.
    plain (s -ℤ nd.nspaces) >>= λ t.
    consider_all e (nd.get_breakpoints y t) best >>= λ step. go_on step (consider_nodes e line y t)

abbrev pub chosen : Step → Option Breakpoint
chosen (returned bp) = bp
chosen (looking best) = best.best_bp

unfoldable pub choose_breakpoint : Settings → ℤ → ℤ → List LineNode → Option (Option Breakpoint)
choose_breakpoint e width_total space_total line =
    consider_nodes e line width_total space_total (record { best_bp = none; best_bp_fits = false })
    >>= λ step. some (chosen step)
