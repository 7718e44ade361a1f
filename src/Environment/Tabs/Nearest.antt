-- ===== src/Environment/Tabs/Nearest.antt =====
-- `distance_to_next_tab` ends at the nearest tab stop of both lists.
use groff.Prelude.{
  ℕ, suc, ◌≡◌, ◌⊎◌, refl, ◌∙◌, inl, inr, some, List, [], ◌∷◌, arith, Bool-cases, get_elem?, All, ℤ,
  pos, ◌+ℤ◌, ◌-ℤ◌, ◌≤ℤ◌, ◌<ℤ◌, leb_ℤ, int_laws,
}
use groff.Int32.{IsInt}
use groff.Environment.Tabs.{
  Tab, TabStops, pass_initial, NextTab, no_tab, initial_tab, behind_initial, distance_to_next_tab,
}
use groff.Environment.Tabs.Next.{
  AreIncreasing, last_position, IsOutside, subtract_exact, IsInt-of_bounds, FitsBehind,
}
use groff.Environment.Tabs.Repeat.{
  base_after, base_after_le, IsNearest, IsUpTo, last_position_le, next_repeated-IsNearest,
}

-- The first stop of the initial list may be anywhere.
abbrev pub IsInitial : List Tab → Type 0
IsInitial [] = Unit
IsInitial (t ∷ ts) = AreIncreasing t.position ts

-- The stops as the request `ta` makes them, with positions that do not take a sum beyond an `int`.
pub record IsRegular (curpos : ℤ) (ts : TabStops) : Type 0 where
  pub initial : IsInitial ts.initial_list
  pub repeated : AreIncreasing (pos 0) ts.repeated_list
  pub initial_fit : All (λ t. IsInt t.position) ts.initial_list
  pub repeated_fit : All (FitsBehind curpos) ts.repeated_list

-- Where the stops that repeat begin, and their period.
abbrev pub start : TabStops → ℤ
start ts = last_position (pos 0) ts.initial_list

abbrev pub period : TabStops → ℤ
period ts = last_position (pos 0) ts.repeated_list

-- A stop of the initial list that is the nearest one of all.
pub record IsInitialStop (curpos : ℤ) (ts : TabStops) (n : NextTab) : Type 0 where
  pub index : ℕ
  pub tab : Tab
  pub there : get_elem? ts.initial_list index ≡ some tab
  pub type_same : n.type ≡ tab.type
  pub nextpos_same : n.nextpos ≡ some tab.position
  pub distance_same : n.distance ≡ some (tab.position -ℤ curpos)
  pub ahead : curpos <ℤ tab.position
  pub nearest_initial : All (λ u. IsOutside curpos tab.position u.position) ts.initial_list
  pub nearest_repeated :
      (k : ℕ)
      → All
          (λ u. IsOutside curpos tab.position (u.position +ℤ base_after k (start ts) (period ts)))
          ts.repeated_list

-- A stop that repeats, where all of the initial list are passed, and no stop at all.
abbrev pub IsNextTab : ℤ → TabStops → NextTab → Type 0
IsNextTab curpos ts n =
    IsInitialStop curpos ts n
    ⊎ (All (IsUpTo curpos) ts.initial_list
        × IsNearest curpos (start ts) (period ts) ts.repeated_list n)
    ⊎ (All (IsUpTo curpos) ts.initial_list × (ts.repeated_list ≡ []) × (n ≡ no_tab))

pub record IsFirst (curpos : ℤ) (ts : List Tab) (last : ℤ) (t : Tab) : Type 0 where
  pub index : ℕ
  pub there : get_elem? ts index ≡ some t
  pub ahead : curpos <ℤ t.position
  pub nearest : All (λ u. IsOutside curpos t.position u.position) ts
  pub up_to : t.position ≤ℤ last
  pub fits : IsInt t.position

increasing-IsOutside :
    (curpos nextpos p : ℤ) (ts : List Tab)
    → AreIncreasing p ts
    → nextpos ≤ℤ p
    → All (λ u. IsOutside curpos nextpos u.position) ts
increasing-IsOutside curpos nextpos p [] inc le = tt
increasing-IsOutside curpos nextpos p (u ∷ us) inc le = (
  inr (omega (arith, inc.0, le)),
  increasing-IsOutside curpos nextpos u.position us inc.1 (omega (arith, inc.0, le)),
)

IsInitial-tail : (t : Tab) (ts : List Tab) → AreIncreasing t.position ts → IsInitial ts
IsInitial-tail t [] inc = tt
IsInitial-tail t (u ∷ us) inc = inc.1

behind-IsOutside :
    (curpos nextpos base : ℤ) (ts : List Tab)
    → All (FitsBehind curpos) ts
    → nextpos ≤ℤ base
    → All (λ u. IsOutside curpos nextpos (u.position +ℤ base)) ts
behind-IsOutside curpos nextpos base [] fits le = tt
behind-IsOutside curpos nextpos base (u ∷ us) fits le =
    (inr (omega (int_laws, fits.0.1, le)), behind-IsOutside curpos nextpos base us fits.1 le)

pass_initial-cases :
    (curpos lastpos : ℤ) (ts : List Tab)
    → IsInitial ts
    → All (λ t. IsInt t.position) ts
    → ((pass_initial curpos ts lastpos ≡ (last_position lastpos ts, [])) × All (IsUpTo curpos) ts)
      ⊎ ((t : Tab) × (l : ℤ) × (us : List Tab) × (pass_initial curpos ts lastpos ≡ (l, t ∷ us))
          × IsFirst curpos ts (last_position lastpos ts) t)
unfolding pass_initial
pass_initial-cases curpos lastpos [] inc fits = inl (refl, tt)
pass_initial-cases curpos lastpos (t ∷ ts) inc fits = elim (Bool-cases (leb_ℤ t.position curpos)) [
  | inl passed ↦ elim (pass_initial-cases curpos t.position ts (IsInitial-tail t ts inc) fits.1) [
    | inl (e, all) ↦ inl (rw passed e, (ground (arith, passed), all))
    | inr (u, l, us, e, next) ↦ inr (
      u,
      l,
      us,
      rw passed e,
      record {
        index = suc next.index;
        there = next.there;
        ahead = next.ahead;
        nearest = (inl (ground (arith, passed)), next.nearest);
        up_to = next.up_to;
        fits = next.fits;
      },
    )
  ]
  | inr stopped ↦ inr (
    t,
    lastpos,
    ts,
    rw stopped,
    record {
      index = 0;
      there = refl;
      ahead = ground (arith, stopped);
      nearest = (
        inr (omega arith),
        increasing-IsOutside curpos t.position t.position ts inc (omega arith),
      );
      up_to = last_position_le t.position ts inc;
      fits = fits.0;
    },
  )
]

behind_initial-stop :
    (fuel : ℕ) (curpos l : ℤ) (repeated_list us : List Tab) (t : Tab)
    → behind_initial fuel curpos repeated_list (l, t ∷ us) ≡ some (initial_tab curpos t)
behind_initial-stop fuel curpos l [] us t = refl
behind_initial-stop fuel curpos l (r ∷ rs) us t = refl

last_position-IsUpTo :
    (c p : ℤ) (ts : List Tab) → p ≤ℤ c → All (IsUpTo c) ts → last_position p ts ≤ℤ c
last_position-IsUpTo c p [] le all = le
last_position-IsUpTo c p (t ∷ ts) le all = last_position-IsUpTo c t.position ts all.0 all.1

last_position-IsInt :
    (p : ℤ) (ts : List Tab) → IsInt p → All (λ t. IsInt t.position) ts → IsInt (last_position p ts)
last_position-IsInt p [] pi all = pi
last_position-IsInt p (t ∷ ts) pi all = last_position-IsInt t.position ts all.0 all.1

behind_initial-IsNearest :
    (fuel : ℕ) (curpos base : ℤ) (rs : List Tab)
    → AreIncreasing (pos 0) rs
    → All (FitsBehind curpos) rs
    → base ≤ℤ curpos
    → pos 0 ≤ℤ curpos
    → IsInt curpos
    → IsInt base
    → curpos <ℤ base +ℤ pos fuel
    → (n : NextTab) × (behind_initial fuel curpos rs (base, []) ≡ some n)
      × (IsNearest curpos base (last_position (pos 0) rs) rs n ⊎ ((rs ≡ []) × (n ≡ no_tab)))
behind_initial-IsNearest fuel curpos base [] inc fits le some_pos ci bi enough =
    (no_tab, refl, inr (refl, refl))
behind_initial-IsNearest fuel curpos base (r ∷ rs) inc fits le some_pos ci bi enough =
    let found =
      next_repeated-IsNearest curpos (last_position (pos 0) (r ∷ rs)) r rs fuel base base refl inc
        fits le some_pos ci bi enough in
    (found.0, found.1, inl found.2)

found_behind :
    (fuel : ℕ) (curpos : ℤ) (ts : TabStops)
    → pass_initial curpos ts.initial_list (pos 0) ≡ (start ts, [])
    → distance_to_next_tab fuel curpos ts
      ≡ behind_initial fuel curpos ts.repeated_list (start ts, [])
unfolding distance_to_next_tab
found_behind fuel curpos ts e = rw e

found_initial :
    (fuel : ℕ) (curpos : ℤ) (ts : TabStops) (l : ℤ) (us : List Tab) (t : Tab)
    → pass_initial curpos ts.initial_list (pos 0) ≡ (l, t ∷ us)
    → distance_to_next_tab fuel curpos ts ≡ some (initial_tab curpos t)
unfolding distance_to_next_tab
found_initial fuel curpos ts l us t e =
    rw e (behind_initial-stop fuel curpos l ts.repeated_list us t)

-- Where the position is not negative and the stops are regular, the search for the next tab stop ends,
-- with fuel for as many rounds as the position is from where the stops that repeat begin. It finds the
-- nearest stop beyond the position: the next one of the initial list, or else the next one in some round
-- of those that repeat, and reports its type, its position and its distance, which is positive. There is
-- no stop only where the initial list is passed and no stop repeats.
pub distance_to_next_tab-IsNextTab :
    (fuel : ℕ) (curpos : ℤ) (ts : TabStops)
    → pos 0 ≤ℤ curpos
    → IsInt curpos
    → IsRegular curpos ts
    → curpos <ℤ start ts +ℤ pos fuel
    → (n : NextTab) × (distance_to_next_tab fuel curpos ts ≡ some n) × IsNextTab curpos ts n
distance_to_next_tab-IsNextTab fuel curpos ts some_pos ci regular enough =
    elim (pass_initial-cases curpos (pos 0) ts.initial_list regular.initial regular.initial_fit) [
      | inl (e, all) ↦
          (let found =
              behind_initial-IsNearest fuel curpos (start ts) ts.repeated_list regular.repeated
                regular.repeated_fit
                (last_position-IsUpTo curpos (pos 0) ts.initial_list some_pos all) some_pos ci
                (last_position-IsInt (pos 0) ts.initial_list (omega arith) regular.initial_fit)
                enough in
            (
              found.0,
              found_behind fuel curpos ts e ∙ found.1,
              elim found.2 [
                | inl nearest ↦ inr (inl (all, nearest))
                | inr nothing ↦ inr (inr (all, nothing.0, nothing.1))
              ],
            ))
      | inr (t, l, us, e, first) ↦ (
        initial_tab curpos t,
        found_initial fuel curpos ts l us t e,
        inl (record {
          index = first.index;
          tab = t;
          there = first.there;
          type_same = refl;
          nextpos_same = refl;
          distance_same = rw (
              subtract_exact t.position curpos (
                IsInt-of_bounds (t.position -ℤ curpos) (omega (int_laws, first.ahead))
                  (omega (int_laws, first.fits, some_pos))));
          ahead = first.ahead;
          nearest_initial = first.nearest;
          nearest_repeated = λ k.
              behind-IsOutside curpos t.position (base_after k (start ts) (period ts))
                ts.repeated_list regular.repeated_fit
                (omega (
                  arith,
                  first.up_to,
                  base_after_le k (start ts) (period ts)
                      (last_position_le (pos 0) ts.repeated_list regular.repeated),
                ));
        }),
      )
    ]
