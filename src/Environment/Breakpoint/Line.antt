-- ===== src/Environment/Breakpoint/Line.antt =====
-- The choice over all nodes of a line.
use groff.Prelude.{
  ◌≤◌, ◌+ℤ◌, pos, true, All, ◌&&◌, ◌≡◌, refl, sym, ap, ◌∙◌, inl, inr, false, Option, none, some,
  List, [], ◌∷◌, ◌++◌, arith, Option-cases, ℤ, ◌-ℤ◌,
}
use groff.Prelude.Maybe.{◌>>=◌}
use groff.Units.{subtract_assign, plain}
use groff.Environment.Breakpoint.{
  Breakpoint, LineNode, Settings, Best, Step, returned, looking, consider, go_on, consider_all,
  consider_nodes, choose_breakpoint, fits, is_even_enough,
}
use groff.Int32.{IsInt}
use groff.Environment.Breakpoint.Loose.{
  allows_hyphen, tolerates_nothing, is_tight, HasSums, may_hyphenate-allows_hyphen,
  is_eager-tolerates_nothing, is_even_enough-is_tight,
}
use groff.Environment.Breakpoint.Choice.{
  AreNarrowing, IsComputed, choice, consider_all-choice, consider_all-end,
}
use mathlib.Core.Option.{some-injective}

-- The breakpoints of the nodes in turn, each asked with the width and the spaces in front of it.
abbrev pub all_breakpoints : List LineNode → ℤ → ℤ → Option (List Breakpoint)
all_breakpoints [] x s = some []
all_breakpoints (nd ∷ line) x s = subtract_assign x nd.width >>= λ y.
    plain (s -ℤ nd.nspaces) >>= λ t.
    all_breakpoints line y t >>= λ rest. some (nd.get_breakpoints y t ++ rest)

go_on_assoc :
    (step : Step) (f g : Best → Option Step)
    → (go_on step f >>= λ next. go_on next g) ≡ go_on step (λ best. f best >>= λ next. go_on next g)
go_on_assoc (returned b) f g = refl
go_on_assoc (looking best) f g = refl

go_on_cong :
    (step : Step) (f g : Best → Option Step)
    → ((best : Best) → f best ≡ g best)
    → go_on step f ≡ go_on step g
go_on_cong (returned b) f g same = refl
go_on_cong (looking best) f g same = same best

consider_all-append :
    (e : Settings) (bps rest : List Breakpoint) (best : Best)
    → consider_all e (bps ++ rest) best
      ≡ (consider_all e bps best >>= λ step. go_on step (consider_all e rest))
unfolding consider_all
consider_all-append e [] rest best = refl
consider_all-append e (bp ∷ bps) rest best = elim (Option-cases (consider e best bp)) [
  | inl stuck ↦ rw stuck
  | inr (step, h) ↦ rw h (
      go_on_cong step (consider_all e (bps ++ rest))
        (λ b. consider_all e bps b >>= λ next. go_on next (consider_all e rest))
        (consider_all-append e bps rest)
      ∙ sym (go_on_assoc step (consider_all e bps) (consider_all e rest)))
]

bind_cong :
    (o : Option Step) (f g : Step → Option Step)
    → ((step : Step) → f step ≡ g step)
    → (o >>= f) ≡ (o >>= g)
bind_cong none f g same = refl
bind_cong (some step) f g same = same step

consider_nodes-all_breakpoints :
    (e : Settings) (line : List LineNode) (x s : ℤ) (best : Best) (bps : List Breakpoint)
    → all_breakpoints line x s ≡ some bps
    → consider_nodes e line x s best ≡ consider_all e bps best
unfolding consider_nodes
consider_nodes-all_breakpoints e [] x s best bps h =
    let same = some-injective [] bps h in rw (sym same) (sym (consider_all-end e best))
consider_nodes-all_breakpoints e (nd ∷ line) x s best bps h =
    elim (Option-cases (subtract_assign x nd.width)) [
      | inl over ↦ absurd (ground arith)
      | inr (y, hy) ↦ elim (Option-cases (plain (s -ℤ nd.nspaces))) [
        | inl over ↦ absurd (ground arith)
        | inr (t, ht) ↦ elim (Option-cases (all_breakpoints line y t)) [
          | inl over ↦ absurd (ground arith)
          | inr (rest, hr) ↦
              (let whole : nd.get_breakpoints y t ++ rest ≡ bps =
                  some-injective (nd.get_breakpoints y t ++ rest) bps (rw (hy, ht, hr) at h) in
                rw (sym whole) (
                  rw (hy, ht)
                    (bind_cong (consider_all e (nd.get_breakpoints y t) best)
                        (λ step. go_on step (consider_nodes e line y t))
                        (λ step. go_on step (consider_all e rest))
                        (λ step.
                          go_on_cong step (consider_nodes e line y t) (consider_all e rest)
                            (λ b. consider_nodes-all_breakpoints e line y t b rest hr))
                      ∙ sym (consider_all-append e (nd.get_breakpoints y t) rest best))))
        ]
      ]
    ]

-- The resolution is positive, and no sum or product that the tests make goes beyond an `int`.
pub record IsModerate (e : Settings) (bps : List Breakpoint) : Type 0 where
  pub resolution : 1 ≤ e.hresolution
  pub count : IsInt (e.hyphen_line_count +ℤ pos 1)
  pub sums : All (HasSums e) bps

tight_all :
    (e : Settings) (bps : List Breakpoint)
    → 1 ≤ e.hresolution
    → All (HasSums e) bps
    → All (λ b. fits e b ≡ true → is_even_enough e b ≡ some (is_tight e b)) bps
tight_all e [] one sums = tt
tight_all e (bp ∷ bps) one (h, sums) =
    (is_even_enough-is_tight e bp one h, tight_all e bps one sums)

IsModerate-IsComputed :
    (e : Settings) (bps : List Breakpoint)
    → IsModerate e bps
    → IsComputed e (allows_hyphen e) (tolerates_nothing e && allows_hyphen e) (is_tight e) bps
IsModerate-IsComputed e bps m = record {
  may_same = may_hyphenate-allows_hyphen e m.count;
  eager_same = is_eager-tolerates_nothing e m.count;
  even_same = tight_all e bps m.resolution m.sums;
}

-- Where no sum or product goes beyond an `int` and the breakpoints get narrower along the line, the choice
-- ends, and takes from the breakpoints of all nodes together the last one if none fits the line. Else it
-- takes the widest that fits, if that is not hyphenated, or if a hyphen is allowed and the settings tolerate
-- no space added or left open. If the widest is hyphenated and not taken so, it takes the widest that fits
-- and is not hyphenated, unless there is none, or a hyphen is allowed and that line would be too loose. A
-- hyphen is allowed where hyphenated lines are not limited or there are fewer in a row than the limit. A
-- line is too loose if it is adjusted and has no spaces or each would have to be widened by more than
-- `hyphenation_space`, or if it is not adjusted and is short by more than `hyphenation_margin`.
pub choose_breakpoint-choice :
    (e : Settings) (width_total space_total : ℤ) (line : List LineNode) (bps : List Breakpoint)
    → all_breakpoints line width_total space_total ≡ some bps
    → IsModerate e bps
    → AreNarrowing e bps
    → choose_breakpoint e width_total space_total line
      ≡ some (
          choice e (allows_hyphen e) (tolerates_nothing e && allows_hyphen e) (is_tight e) none bps)
unfolding choose_breakpoint
choose_breakpoint-choice e width_total space_total line bps all moderate narrowing =
    let best : Best = record { best_bp = none; best_bp_fits = false } in
    let nodes = consider_nodes-all_breakpoints e line width_total space_total best bps all in
    let found =
      consider_all-choice e (allows_hyphen e) (tolerates_nothing e && allows_hyphen e) (is_tight e)
        none bps (IsModerate-IsComputed e bps moderate) narrowing in
    rw (nodes, found.1) (ap some found.2)
