-- ===== src/Environment/Tabs/Next.antt =====
-- The search for the next tab stop ends at the nearest one.
use groff.Prelude.{
  ℕ, suc, ◌≡◌, ◌⊎◌, refl, inl, inr, some, List, [], ◌∷◌, arith, Bool-cases, get_elem?, All, ℤ, pos,
  negsuc, ◌+ℤ◌, ◌-ℤ◌, ◌≤ℤ◌, ◌<ℤ◌, leb_ℤ, int_laws,
}
use groff.Int32.{int_max, int_min, IsInt, ckd_add, ckd_sub, wrap_self}
use groff.Units.{add, subtract}
use groff.Environment.Tabs.{Tab, pass_repeated}

-- Each position is beyond the one before it, and the first one beyond `p`.
abbrev pub AreIncreasing : ℤ → List Tab → Type 0
AreIncreasing p [] = Unit
AreIncreasing p (t ∷ ts) = (p <ℤ t.position) × AreIncreasing t.position ts

abbrev pub last_position : ℤ → List Tab → ℤ
last_position p [] = p
last_position p (t ∷ ts) = last_position t.position ts

-- No stop at `p` is between the current position and the next one.
abbrev pub IsOutside : ℤ → ℤ → ℤ → Type 0
IsOutside curpos nextpos p = (p ≤ℤ curpos) ⊎ (nextpos ≤ℤ p)

pub IsInt-of_bounds : (z : ℤ) → int_min ≤ℤ z → z ≤ℤ pos int_max → IsInt z
IsInt-of_bounds (pos n) low high = omega (arith, high)
IsInt-of_bounds (negsuc n) low high = omega (arith, low)

pub add_exact : (a b : ℤ) → IsInt (a +ℤ b) → add a b ≡ a +ℤ b
unfolding add ckd_add
add_exact a b h = wrap_self (a +ℤ b) h

pub subtract_exact : (a b : ℤ) → IsInt (a -ℤ b) → subtract a b ≡ a -ℤ b
unfolding subtract ckd_sub
subtract_exact a b h = wrap_self (a -ℤ b) h

-- What is left of a list where the stops up to the current position, `base` further on, are passed.
module _ (curpos base : ℤ) where
  abbrev pub AllPassed : List Tab → Type 0
  AllPassed = All (λ u. u.position +ℤ base ≤ℤ curpos)

  pub record IsNext (ts : List Tab) (t : Tab) : Type 0 where
    pub index : ℕ
    pub there : get_elem? ts index ≡ some t
    pub ahead : curpos <ℤ t.position +ℤ base
    pub nearest : All (λ u. IsOutside curpos (t.position +ℤ base) (u.position +ℤ base)) ts

-- The position of a stop, one that repeats, can be computed in an `int`.
abbrev pub FitsBehind : ℤ → Tab → Type 0
FitsBehind curpos t =
    IsInt t.position × (pos 0 <ℤ t.position) × (curpos +ℤ t.position ≤ℤ pos int_max)

-- Further stops are further away.
increasing-IsOutside :
    (curpos base nextpos p : ℤ) (ts : List Tab)
    → AreIncreasing p ts
    → nextpos ≤ℤ p +ℤ base
    → All (λ u. IsOutside curpos nextpos (u.position +ℤ base)) ts
increasing-IsOutside curpos base nextpos p [] inc le = tt
increasing-IsOutside curpos base nextpos p (u ∷ us) inc le = (
  inr (omega (int_laws, inc.0)),
  increasing-IsOutside curpos base nextpos u.position us inc.1 (omega (int_laws, inc.0)),
)

pub pass_repeated-cases :
    (curpos base p lastpos : ℤ) (ts : List Tab)
    → AreIncreasing p ts
    → All (FitsBehind curpos) ts
    → base ≤ℤ curpos
    → IsInt curpos
    → IsInt base
    → ((pass_repeated curpos base ts lastpos ≡ (last_position lastpos ts, []))
        × AllPassed curpos base ts)
      ⊎ ((t : Tab) × (l : ℤ) × (us : List Tab) × (pass_repeated curpos base ts lastpos
            ≡ (l, t ∷ us))
          × IsNext curpos base ts t)
unfolding pass_repeated
pass_repeated-cases curpos base p lastpos [] inc fits le ci bi = inl (refl, tt)
pass_repeated-cases curpos base p lastpos (t ∷ ts) inc fits le ci bi =
    let sum : add t.position base ≡ t.position +ℤ base = add_exact t.position base (
      IsInt-of_bounds (t.position +ℤ base) (omega (int_laws, fits.0)) (omega (int_laws, fits.0))) in
    elim (Bool-cases (leb_ℤ (t.position +ℤ base) curpos)) [
      | inl passed ↦
          elim (pass_repeated-cases curpos base t.position t.position ts inc.1 fits.1 le ci bi) [
            | inl (e, all) ↦ inl (rw (sum, passed) e, (ground (arith, passed), all))
            | inr (u, l, us, e, next) ↦ inr (
              u,
              l,
              us,
              rw (sum, passed) e,
              record {
                index = suc next.index;
                there = next.there;
                ahead = next.ahead;
                nearest = (inl (ground (arith, passed)), next.nearest);
              },
            )
          ]
      | inr stopped ↦ inr (
        t,
        lastpos,
        ts,
        rw (sum, stopped),
        record {
          index = 0;
          there = refl;
          ahead = ground (arith, stopped);
          nearest = (
            inr (omega arith),
            increasing-IsOutside curpos base (t.position +ℤ base) t.position ts inc.1 (omega arith),
          );
        },
      )
    ]
