-- ===== src/Environment/Breakpoint/Choice.antt =====
-- Which breakpoint is chosen.
use groff.Prelude.{
  ◌≡◌, refl, sym, ap, ◌∙◌, inl, inr, Bool, true, false, not, ◌&&◌, ◌||◌, Option, none, some, List,
  [], ◌∷◌, arith, if◌then◌else◌, Bool-cases, All,
}
use groff.Environment.Breakpoint.{
  Breakpoint, Settings, may_hyphenate, is_even_enough, Best, Step, returned, looking, fits,
  prefer_hyphenated, is_eager, consider, consider_all, chosen,
}

-- The breakpoints that fit stand behind those that do not, as a line gets shorter from one to the next.
abbrev pub AreNarrowing : Settings → List Breakpoint → Type 0
AreNarrowing e [] = Unit
AreNarrowing e (bp ∷ bps) = (fits e bp ≡ true → All (λ b. fits e b ≡ true) bps) × AreNarrowing e bps

-- The first one that fits, the first one that fits and is not hyphenated, and the last one.
abbrev pub first_fitting : Settings → List Breakpoint → Option Breakpoint
first_fitting e [] = none
first_fitting e (bp ∷ bps) = if fits e bp then some bp else first_fitting e bps

abbrev pub first_unhyphenated : Settings → List Breakpoint → Option Breakpoint
first_unhyphenated e [] = none
first_unhyphenated e (bp ∷ bps) =
    if fits e bp && not bp.hyphenated then some bp else first_unhyphenated e bps

abbrev pub last_or : Option Breakpoint → List Breakpoint → Option Breakpoint
last_or b [] = b
last_or b (bp ∷ bps) = last_or (some bp) bps

-- Whether the line is to end at a hyphen, where it could end without one.
abbrev pub prefers_hyphen : Bool → (Breakpoint → Bool) → Breakpoint → Bool
prefers_hyphen may even plain_bp = may && not (even plain_bp)

-- The one to choose: what is not hyphenated wins unless a line with the hyphen is longer, allowed and
-- needed.
abbrev pub between : Bool → (Breakpoint → Bool) → Breakpoint → Option Breakpoint → Option Breakpoint
between may even hyphen none = some hyphen
between may even hyphen (some plain_bp) =
    if prefers_hyphen may even plain_bp then some hyphen else some plain_bp

abbrev pub of_fitting :
    Bool
    → Bool
    → (Breakpoint → Bool)
    → Option Breakpoint
    → Option Breakpoint
    → Option Breakpoint
    → Option Breakpoint
of_fitting may eager even last plain_bp none = last
of_fitting may eager even last plain_bp (some first) =
    if not first.hyphenated || eager then some first else between may even first plain_bp

abbrev pub choice :
    Settings
    → Bool
    → Bool
    → (Breakpoint → Bool)
    → Option Breakpoint
    → List Breakpoint
    → Option Breakpoint
choice e may eager even last bps =
    of_fitting may eager even (last_or last bps) (first_unhyphenated e bps) (first_fitting e bps)

module _ (e : Settings) (best : Best) (bp : Breakpoint) where
  consider-unfit :
      fits e bp ≡ false
      → consider e best bp
        ≡ some (looking (record { best_bp = some bp; best_bp_fits = best.best_bp_fits }))
  unfolding consider
  consider-unfit unfit = ground arith

  consider-hyphenated :
      (eager : Bool)
      → fits e bp ≡ true
      → bp.hyphenated ≡ true
      → is_eager e ≡ some eager
      → consider e best bp
        ≡ some (
            if eager
            then returned (some bp)
            else if not best.best_bp_fits
            then looking (record { best_bp = some bp; best_bp_fits = true })
            else looking best)
  unfolding consider
  consider-hyphenated eager fit hyphenated computed = ground arith

  consider-unhyphenated :
      (preferred : Bool)
      → fits e bp ≡ true
      → bp.hyphenated ≡ false
      → prefer_hyphenated e best bp ≡ some preferred
      → consider e best bp ≡ some (returned (if preferred then best.best_bp else some bp))
  unfolding consider
  consider-unhyphenated preferred fit unhyphenated computed = ground arith

  prefer_hyphenated-none : best.best_bp_fits ≡ false → prefer_hyphenated e best bp ≡ some false
  unfolding prefer_hyphenated
  prefer_hyphenated-none first = ground arith

  prefer_hyphenated-computed :
      (may even : Bool)
      → best.best_bp_fits ≡ true
      → may_hyphenate e ≡ some may
      → is_even_enough e bp ≡ some even
      → prefer_hyphenated e best bp ≡ some (may && not even)
  unfolding prefer_hyphenated
  prefer_hyphenated-computed true even second computed computed' = ground arith
  prefer_hyphenated-computed false even second computed computed' = ground arith

pub consider_all-end : (e : Settings) (best : Best) → consider_all e [] best ≡ some (looking best)
unfolding consider_all
consider_all-end e best = refl

module _ (e : Settings) (bp : Breakpoint) (bps : List Breakpoint) (best : Best) where
  consider_all-returned :
      (b : Option Breakpoint)
      → consider e best bp ≡ some (returned b)
      → consider_all e (bp ∷ bps) best ≡ some (returned b)
  unfolding consider_all
  consider_all-returned b h = rw h

  consider_all-looking :
      (next : Best)
      → consider e best bp ≡ some (looking next)
      → consider_all e (bp ∷ bps) best ≡ consider_all e bps next
  unfolding consider_all
  consider_all-looking next h = rw h

module _ (e : Settings) (may eager : Bool) (even : Breakpoint → Bool) where
  -- The tests are computed without overflow.
  pub record IsComputed (bps : List Breakpoint) : Type 0 where
    pub may_same : may_hyphenate e ≡ some may
    pub eager_same : is_eager e ≡ some eager
    pub even_same : All (λ b. fits e b ≡ true → is_even_enough e b ≡ some (even b)) bps

  IsComputed-tail :
      (bp : Breakpoint) (bps : List Breakpoint) → IsComputed (bp ∷ bps) → IsComputed bps
  IsComputed-tail bp bps c = record {
    may_same = c.may_same;
    eager_same = c.eager_same;
    even_same = c.even_same.1;
  }

  of_fitting-same :
      (last u u' f f' : Option Breakpoint)
      → u ≡ u'
      → f ≡ f'
      → of_fitting may eager even last u f ≡ of_fitting may eager even last u' f'
  of_fitting-same last u u' f f' eu ef =
      ap (λ w. of_fitting may eager even last w f) eu ∙ ap (of_fitting may eager even last u') ef

  of_fitting-first :
      (last u : Option Breakpoint) (bp : Breakpoint)
      → (not bp.hyphenated || eager) ≡ true
      → of_fitting may eager even last u (some bp) ≡ some bp
  of_fitting-first last u bp wins = ground arith

  of_fitting-between :
      (last u : Option Breakpoint) (bp : Breakpoint)
      → (not bp.hyphenated || eager) ≡ false
      → of_fitting may eager even last u (some bp) ≡ between may even bp u
  of_fitting-between last u bp loses = rw loses

  -- Behind a hyphenated one that fits, the first one without a hyphen decides.
  consider_all-between :
      (hyphen : Breakpoint) (bps : List Breakpoint)
      → IsComputed bps
      → eager ≡ false
      → All (λ b. fits e b ≡ true) bps
      → (step : Step) × (consider_all e bps (record { best_bp = some hyphen; best_bp_fits = true })
          ≡ some step)
        × (chosen step ≡ between may even hyphen (first_unhyphenated e bps))
  consider_all-between hyphen [] c lazy fit = (
    looking (record { best_bp = some hyphen; best_bp_fits = true }),
    consider_all-end e (record { best_bp = some hyphen; best_bp_fits = true }),
    refl,
  )
  consider_all-between hyphen (bp ∷ bps) c lazy fit =
      let best : Best = record { best_bp = some hyphen; best_bp_fits = true } in
      elim (Bool-cases bp.hyphenated) [
        | inl hyphenated ↦
            (let rest = consider_all-between hyphen bps (IsComputed-tail bp bps c) lazy fit.1 in
              let kept : consider e best bp ≡ some (looking best) =
                consider-hyphenated e best bp eager fit.0 hyphenated c.eager_same ∙ (rw lazy) in
              let skipped : first_unhyphenated e (bp ∷ bps) ≡ first_unhyphenated e bps =
                ground arith in
              (
                rest.0,
                consider_all-looking e bp bps best best kept ∙ rest.1,
                rest.2 ∙ ap (between may even hyphen) (sym skipped),
              ))
        | inr unhyphenated ↦
            (let preferred =
                prefer_hyphenated-computed e best bp may (even bp) refl c.may_same
                  (c.even_same.0 fit.0) in
              let done =
                consider-unhyphenated e best bp (may && not (even bp)) fit.0 unhyphenated
                  preferred in
              let taken : first_unhyphenated e (bp ∷ bps) ≡ some bp = ground (arith, fit.0) in
              (
                returned (if may && not (even bp) then some hyphen else some bp),
                consider_all-returned e bp bps best
                    (if may && not (even bp) then some hyphen else some bp) done,
                ap (between may even hyphen) (sym taken),
              ))
      ]

  -- At the first one that fits, where it is hyphenated.
  consider_all-hyphenated :
      (last : Option Breakpoint) (bp : Breakpoint) (bps : List Breakpoint)
      → IsComputed (bp ∷ bps)
      → AreNarrowing e (bp ∷ bps)
      → fits e bp ≡ true
      → bp.hyphenated ≡ true
      → (step : Step) × (consider_all e (bp ∷ bps) (record { best_bp = last; best_bp_fits = false })
          ≡ some step)
        × (chosen step ≡ choice e may eager even last (bp ∷ bps))
  consider_all-hyphenated last bp bps c narrowing fit hyphenated =
      let best : Best = record { best_bp = last; best_bp_fits = false } in
      let next : Best = record { best_bp = some bp; best_bp_fits = true } in
      let all = last_or (some bp) bps in
      let u = first_unhyphenated e (bp ∷ bps) in
      let found : some bp ≡ first_fitting e (bp ∷ bps) = ground arith in
      let step = consider-hyphenated e best bp eager fit hyphenated c.eager_same in
      elim (Bool-cases eager) [
        | inl eagerly ↦ (
          returned (some bp),
          consider_all-returned e bp bps best (some bp) (step ∙ (rw eagerly)),
          sym (of_fitting-first all u bp (ground arith))
              ∙ ap (of_fitting may eager even all u) found,
        )
        | inr lazy ↦
            (let rest =
                consider_all-between bp bps (IsComputed-tail bp bps c) lazy (narrowing.0 fit) in
              let skipped : first_unhyphenated e bps ≡ u = ground arith in
              (
                rest.0,
                consider_all-looking e bp bps best next (step ∙ (rw lazy)) ∙ rest.1,
                rest.2
                    ∙ (ap (between may even bp) skipped
                        ∙ (sym (of_fitting-between all u bp (ground arith))
                            ∙ ap (of_fitting may eager even all u) found)),
              ))
      ]

  -- As long as none fits.
  pub consider_all-choice :
      (last : Option Breakpoint) (bps : List Breakpoint)
      → IsComputed bps
      → AreNarrowing e bps
      → (step : Step) × (consider_all e bps (record { best_bp = last; best_bp_fits = false })
          ≡ some step)
        × (chosen step ≡ choice e may eager even last bps)
  consider_all-choice last [] c narrowing = (
    looking (record { best_bp = last; best_bp_fits = false }),
    consider_all-end e (record { best_bp = last; best_bp_fits = false }),
    refl,
  )
  consider_all-choice last (bp ∷ bps) c narrowing =
      let best : Best = record { best_bp = last; best_bp_fits = false } in
      let all = last_or (some bp) bps in
      elim (Bool-cases (fits e bp)) [
        | inr unfit ↦
            (let next : Best = record { best_bp = some bp; best_bp_fits = false } in
              let rest = consider_all-choice (some bp) bps (IsComputed-tail bp bps c) narrowing.1 in
              let skipped : first_unhyphenated e bps ≡ first_unhyphenated e (bp ∷ bps) =
                ground arith in
              let skipped' : first_fitting e bps ≡ first_fitting e (bp ∷ bps) = ground arith in
              (
                rest.0,
                consider_all-looking e bp bps best next (consider-unfit e best bp unfit) ∙ rest.1,
                rest.2
                    ∙ of_fitting-same all (first_unhyphenated e bps)
                        (first_unhyphenated e (bp ∷ bps)) (first_fitting e bps)
                        (first_fitting e (bp ∷ bps)) skipped skipped',
              ))
        | inl fit ↦
            (let found : some bp ≡ first_fitting e (bp ∷ bps) = ground arith in
              let u = first_unhyphenated e (bp ∷ bps) in
              elim (Bool-cases bp.hyphenated) [
                | inr unhyphenated ↦
                    (let done =
                        consider-unhyphenated e best bp false fit unhyphenated
                          (prefer_hyphenated-none e best bp refl) in
                      (
                        returned (some bp),
                        consider_all-returned e bp bps best (some bp) done,
                        sym (of_fitting-first all u bp (ground arith))
                            ∙ ap (of_fitting may eager even all u) found,
                      ))
                | inl hyphenated ↦ consider_all-hyphenated last bp bps c narrowing fit hyphenated
              ])
      ]
