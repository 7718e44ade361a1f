-- ===== src/Environment/Tabs/Repeat.antt =====
-- The stops that repeat: the loop ends at the nearest one of all its rounds.
use groff.Prelude.{
  ℕ, zero, suc, ◌≡◌, refl, ◌∙◌, inl, inr, false, some, List, [], ◌∷◌, arith, get_elem?, All, ℤ, pos,
  ◌+ℤ◌, ◌-ℤ◌, ◌≤ℤ◌, ◌<ℤ◌, ltb_ℤ, int_laws,
}
use mathlib.Core.Path.{subst}
use mathlib.Core.Option.{some-injective}
use groff.Int32.{IsInt, IsInt→in_range}
use groff.Units.{add_assign, plain}
use groff.Environment.Tabs.{Tab, pass_repeated, NextTab, repeated_tab, next_repeated}
use groff.Environment.Tabs.Next.{
  AreIncreasing, last_position, IsOutside, add_exact, subtract_exact, IsInt-of_bounds, AllPassed,
  FitsBehind, pass_repeated-cases,
}

-- Where the stops begin after some rounds.
abbrev pub base_after : ℕ → ℤ → ℤ → ℤ
base_after zero base period = base
base_after (suc k) base period = base_after k (base +ℤ period) period

-- The tab that was found is the stop `tab` of a round, and no stop of any round is nearer.
pub record IsNearest (curpos base period : ℤ) (ts : List Tab) (r : NextTab) : Type 0 where
  pub round : ℕ
  pub index : ℕ
  pub tab : Tab
  pub there : get_elem? ts index ≡ some tab
  pub type_same : r.type ≡ tab.type
  pub nextpos_same : r.nextpos ≡ some (tab.position +ℤ base_after round base period)
  pub distance_same : r.distance ≡ some (tab.position +ℤ base_after round base period -ℤ curpos)
  pub ahead : curpos <ℤ tab.position +ℤ base_after round base period
  pub nearest :
      (k : ℕ)
      → All
          (λ u.
            IsOutside curpos
              (tab.position +ℤ base_after round base period)
              (u.position +ℤ base_after k base period))
          ts

abbrev pub IsUpTo : ℤ → Tab → Type 0
IsUpTo p u = u.position ≤ℤ p

IsUpTo-get_elem? :
    (p : ℤ) (ts : List Tab) (i : ℕ) (t : Tab)
    → All (IsUpTo p) ts
    → get_elem? ts i ≡ some t
    → t.position ≤ℤ p
IsUpTo-get_elem? p [] i t h e = absurd (ground arith)
IsUpTo-get_elem? p (u ∷ us) zero t h e = subst (IsUpTo p) (some-injective u t e) h.0
IsUpTo-get_elem? p (u ∷ us) (suc i) t h e = IsUpTo-get_elem? p us i t h.1 e

FitsBehind-get_elem? :
    (p : ℤ) (ts : List Tab) (i : ℕ) (t : Tab)
    → All (FitsBehind p) ts
    → get_elem? ts i ≡ some t
    → FitsBehind p t
FitsBehind-get_elem? p [] i t h e = absurd (ground arith)
FitsBehind-get_elem? p (u ∷ us) zero t h e = subst (FitsBehind p) (some-injective u t e) h.0
FitsBehind-get_elem? p (u ∷ us) (suc i) t h e = FitsBehind-get_elem? p us i t h.1 e

every_round : (P : ℕ → Type 0) → P 0 → ((k : ℕ) → P (suc k)) → (k : ℕ) → P k
every_round P now later zero = now
every_round P now later (suc k) = later k

-- The last position is the greatest.
pub last_position_le : (p : ℤ) (ts : List Tab) → AreIncreasing p ts → p ≤ℤ last_position p ts
last_position_le p [] inc = omega arith
last_position_le p (t ∷ ts) inc = omega (arith, inc.0, last_position_le t.position ts inc.1)

All-IsUpTo : (p : ℤ) (ts : List Tab) → AreIncreasing p ts → All (IsUpTo (last_position p ts)) ts
All-IsUpTo p [] inc = tt
All-IsUpTo p (t ∷ ts) inc = (last_position_le t.position ts inc.1, All-IsUpTo t.position ts inc.1)

last_position-AllPassed :
    (curpos base p : ℤ) (ts : List Tab)
    → p +ℤ base ≤ℤ curpos
    → AllPassed curpos base ts
    → last_position p ts +ℤ base ≤ℤ curpos
last_position-AllPassed curpos base p [] le all = le
last_position-AllPassed curpos base p (t ∷ ts) le all =
    last_position-AllPassed curpos base t.position ts all.0 all.1

pub base_after_le : (k : ℕ) (base period : ℤ) → pos 0 ≤ℤ period → base ≤ℤ base_after k base period
base_after_le zero base period h = omega arith
base_after_le (suc k) base period h = omega (int_laws, base_after_le k (base +ℤ period) period h)

-- The stops of later rounds are further away.
later-IsOutside :
    (curpos base period nextpos : ℤ) (k : ℕ) (ts : List Tab)
    → All (FitsBehind curpos) ts
    → pos 0 ≤ℤ period
    → nextpos ≤ℤ base +ℤ period
    → All (λ u. IsOutside curpos nextpos (u.position +ℤ base_after k (base +ℤ period) period)) ts
later-IsOutside curpos base period nextpos k [] fits h le = tt
later-IsOutside curpos base period nextpos k (u ∷ us) fits h le = (
  inr (omega (int_laws, fits.0.1, base_after_le k (base +ℤ period) period h)),
  later-IsOutside curpos base period nextpos k us fits.1 h le,
)

passed-IsOutside :
    (curpos base nextpos : ℤ) (ts : List Tab)
    → AllPassed curpos base ts
    → All (λ u. IsOutside curpos nextpos (u.position +ℤ base)) ts
passed-IsOutside curpos base nextpos [] all = tt
passed-IsOutside curpos base nextpos (u ∷ us) all =
    (inl all.0, passed-IsOutside curpos base nextpos us all.1)

step-found :
    (fuel : ℕ) (curpos base lastpos l : ℤ) (ts us : List Tab) (t : Tab)
    → pass_repeated curpos base ts lastpos ≡ (l, t ∷ us)
    → next_repeated (suc fuel) curpos ts base lastpos ≡ some (repeated_tab curpos base t)
unfolding next_repeated
step-found fuel curpos base lastpos l ts us t e = rw e

step-more :
    (fuel : ℕ) (curpos base lastpos period : ℤ) (ts : List Tab)
    → pass_repeated curpos base ts lastpos ≡ (period, [])
    → pos 0 <ℤ period
    → IsInt (base +ℤ period)
    → next_repeated (suc fuel) curpos ts base lastpos
      ≡ next_repeated fuel curpos ts (base +ℤ period) period
unfolding next_repeated add_assign plain
step-more fuel curpos base lastpos period ts e positive fits =
    let kept : ltb_ℤ period (pos 0) ≡ false = ground (arith, positive) in
    rw (e, kept, IsInt→in_range (base +ℤ period) fits)

module _ (curpos period : ℤ) (r : Tab) (rs : List Tab) where
  -- The loop comes to a stop, since each round goes on by a period, which is positive.
  pub next_repeated-IsNearest :
      (fuel : ℕ) (base lastpos : ℤ)
      → period ≡ last_position lastpos (r ∷ rs)
      → AreIncreasing (pos 0) (r ∷ rs)
      → All (FitsBehind curpos) (r ∷ rs)
      → base ≤ℤ curpos
      → pos 0 ≤ℤ curpos
      → IsInt curpos
      → IsInt base
      → curpos <ℤ base +ℤ pos fuel
      → (n : NextTab) × (next_repeated fuel curpos (r ∷ rs) base lastpos ≡ some n)
        × IsNearest curpos base period (r ∷ rs) n
  next_repeated-IsNearest zero base lastpos per inc fits le some_pos ci bi enough =
      absurd (omega (int_laws, enough, le))
  next_repeated-IsNearest (suc fuel) base lastpos per inc fits le some_pos ci bi enough =
      let long = last_position_le r.position rs inc.1 in
      let positive : pos 0 <ℤ period = rw per (omega (arith, inc.0, long)) in
      elim (pass_repeated-cases curpos base (pos 0) lastpos (r ∷ rs) inc fits le ci bi) [
        | inl (e, all) ↦
            (let all_le = last_position-AllPassed curpos base r.position rs all.0 all.1 in
              let next_le : base +ℤ period ≤ℤ curpos = rw per (omega (int_laws, all_le)) in
              let next_int : IsInt (base +ℤ period) =
                IsInt-of_bounds (base +ℤ period) (omega (int_laws, positive, bi))
                  (omega (int_laws, next_le, ci)) in
              let rest =
                next_repeated-IsNearest fuel (base +ℤ period) period per inc fits next_le some_pos
                  ci next_int (omega (int_laws, positive, enough)) in
              let found = rest.2 in
              (
                rest.0,
                step-more fuel curpos base lastpos period (r ∷ rs) (rw per e) positive next_int
                    ∙ rest.1,
                record {
                  round = suc found.round;
                  index = found.index;
                  tab = found.tab;
                  there = found.there;
                  type_same = found.type_same;
                  nextpos_same = found.nextpos_same;
                  distance_same = found.distance_same;
                  ahead = found.ahead;
                  nearest =
                      every_round
                        (λ k.
                          All
                            (λ u.
                              IsOutside curpos
                                (found.tab.position
                                  +ℤ base_after found.round (base +ℤ period) period)
                                (u.position +ℤ base_after k base period))
                            (r ∷ rs))
                        (passed-IsOutside curpos base
                          (found.tab.position +ℤ base_after found.round (base +ℤ period) period)
                          (r ∷ rs) all)
                        found.nearest;
                },
              ))
        | inr (t, l, us, e, next) ↦
            (let up_to : t.position ≤ℤ period = rw per (
                IsUpTo-get_elem? (last_position (pos 0) (r ∷ rs)) (r ∷ rs) next.index t
                  (All-IsUpTo (pos 0) (r ∷ rs) inc) next.there) in
              let fit = FitsBehind-get_elem? curpos (r ∷ rs) next.index t fits next.there in
              let sum = add_exact t.position base (
                IsInt-of_bounds (t.position +ℤ base) (omega (int_laws, fit.1, bi))
                  (omega (int_laws, fit.2, le))) in
              let difference = subtract_exact (t.position +ℤ base) curpos (
                IsInt-of_bounds (t.position +ℤ base -ℤ curpos) (omega (int_laws, next.ahead))
                  (omega (int_laws, fit.2, le, some_pos))) in
              (
                repeated_tab curpos base t,
                step-found fuel curpos base lastpos l (r ∷ rs) us t e,
                record {
                  round = 0;
                  index = next.index;
                  tab = t;
                  there = next.there;
                  type_same = refl;
                  nextpos_same = rw sum;
                  distance_same = rw (sum, difference);
                  ahead = next.ahead;
                  nearest =
                      every_round
                        (λ k.
                          All
                            (λ u.
                              IsOutside curpos (t.position +ℤ base)
                                (u.position +ℤ base_after k base period))
                            (r ∷ rs))
                        next.nearest
                        (λ k.
                          later-IsOutside curpos base period (t.position +ℤ base) k (r ∷ rs) fits
                            (omega (arith, positive)) (omega (int_laws, up_to)));
                },
              ))
      ]
