-- ===== src/Environment/Breakpoint/Loose.antt =====
-- The tests of `choose_breakpoint` on the settings, on numbers without a bound: whether one more hyphen is
-- allowed, whether no breakpoint but a hyphenated one is wanted, and whether a line would look too loose.
use native.Mathlib.Nat.{div-lt_iff_lt-mul}
use groff.Prelude.{
  ℕ, zero, suc, ◌+◌, ◌-◌, ◌*◌, ◌/◌, ◌≤◌, ◌≡◌, refl, ap, inl, inr, Bool, true, false, ◌&&◌, ◌||◌,
  some, arith, leb, ◌==◌, if◌then◌else◌, Bool-cases, ℤ, pos, negsuc, pos_part, ◌+ℤ◌, ◌-ℤ◌, ◌*ℤ◌,
  ◌≤ℤ◌, ltb_ℤ, leb_ℤ, eq_ℤ, int_laws, +ℤ_parts, eq_of_parts, minus_parts,
}
use groff.Int32.{int_max, IsInt, IsInt→in_range, wrap_self, ckd_add, ckd_sub}
use groff.Units.{subtract, add, plain, divide-pos, is_zero}
use groff.Units.Rounding.{from_units_multiple}
use groff.Environment.Breakpoint.{
  Breakpoint, Settings, adjust_both, may_hyphenate, gain, is_even_enough, is_eager, fits,
}

-- Hyphenated lines are not limited, or there are fewer in a row than the limit.
abbrev pub allows_hyphen : Settings → Bool
allows_hyphen e = ltb_ℤ e.hyphen_line_max (pos 0) || ltb_ℤ e.hyphen_line_count e.hyphen_line_max

-- Nothing may be added to the spaces of an adjusted line, or left open at the end of another one.
abbrev pub tolerates_nothing : Settings → Bool
tolerates_nothing e =
    if e.adjust_mode == adjust_both
    then eq_ℤ e.hyphenation_space (pos 0)
    else eq_ℤ e.hyphenation_margin (pos 0)

abbrev pub shortfall : Settings → Breakpoint → ℤ
shortfall e bp = e.target_text_length -ℤ bp.width

-- An adjusted line is filled by widening each of its spaces by at most `hyphenation_space`; any other is
-- short of its length by at most `hyphenation_margin`.
abbrev pub is_tight : Settings → Breakpoint → Bool
is_tight e bp =
    if e.adjust_mode == adjust_both
    then ltb_ℤ (pos 0) bp.nspaces && leb_ℤ (shortfall e bp) (e.hyphenation_space *ℤ bp.nspaces)
    else leb_ℤ (shortfall e bp) e.hyphenation_margin

-- The sums and products that the tests on a breakpoint make are values of `int`.
pub record HasSums (e : Settings) (bp : Breakpoint) : Type 0 where
  pub short : IsInt (shortfall e bp)
  pub spaces : pos_part bp.nspaces * e.hresolution ≤ int_max
  pub total : pos_part (shortfall e bp) + pos_part bp.nspaces ≤ int_max

next-leb_ℤ : (a b : ℤ) → leb_ℤ (a +ℤ pos 1) b ≡ ltb_ℤ a b
next-leb_ℤ a b = ground (arith, +ℤ_parts a (pos 1))

pub may_hyphenate-allows_hyphen :
    (e : Settings) → IsInt (e.hyphen_line_count +ℤ pos 1) → may_hyphenate e ≡ some (allows_hyphen e)
unfolding may_hyphenate plain
may_hyphenate-allows_hyphen e h =
    let fine = IsInt→in_range (e.hyphen_line_count +ℤ pos 1) h in
    elim (Bool-cases (ltb_ℤ e.hyphen_line_max (pos 0))) [
      | inl unlimited ↦ rw unlimited refl
      | inr limited ↦
          rw (limited, fine) (ap some (next-leb_ℤ e.hyphen_line_count e.hyphen_line_max))
    ]

pub is_eager-tolerates_nothing :
    (e : Settings)
    → IsInt (e.hyphen_line_count +ℤ pos 1)
    → is_eager e ≡ some (tolerates_nothing e && allows_hyphen e)
unfolding is_eager is_zero
is_eager-tolerates_nothing e h = ground (arith, may_hyphenate-allows_hyphen e h)

-- A quotient that is rounded up is within a bound if the dividend is within that many divisors.
ceiling-leb : (m n k : ℕ) → leb ((m + n) / suc n) k ≡ leb m (k * suc n)
ceiling-leb m n k =
    let (to, from) = div-lt_iff_lt-mul {k = suc n} {x = m + n} {y = suc k} (omega arith) in
    elim (Bool-cases (leb m (k * suc n))) [
      | inl le ↦ let less = from (ground arith) in ground arith
      | inr gt ↦ elim (Bool-cases (leb ((m + n) / suc n) k)) [
        | inl le ↦ let less = to (ground arith) in ground arith
        | inr more ↦ ground arith
      ]
    ]

ceiling-leb_ℤ :
    (m n : ℕ) (h : ℤ) → leb_ℤ (pos ((m + n) / suc n)) h ≡ leb_ℤ (pos m) (h *ℤ pos (suc n))
unfolding ◌*ℤ◌
ceiling-leb_ℤ m n (pos k) = ground (arith, ceiling-leb m n k)
ceiling-leb_ℤ m n (negsuc k) = ground (arith, minus_parts (suc k * suc n))

module _ (e : Settings) (bp : Breakpoint) (m n : ℕ) (short : shortfall e bp ≡ pos m)
    (spaces : bp.nspaces ≡ pos (suc n)) (total : m + suc n ≤ int_max) where
  gain-ceiling :
      1 ≤ e.hresolution → suc n * e.hresolution ≤ int_max → gain e bp ≡ some (pos ((m + n) / suc n))
  unfolding gain plain add subtract ckd_add ckd_sub ◌*ℤ◌
  gain-ceiling one fits =
      let fewer : pos (suc n) -ℤ pos 1 ≡ pos n = eq_of_parts _ _ (omega int_laws) in
      let small : leb (n * e.hresolution) int_max ≡ true = ground arith in
      let back = from_units_multiple e.hresolution n one fits in
      let sum : pos m +ℤ pos n ≡ pos (m + n) = eq_of_parts _ _ (omega int_laws) in
      let kept = wrap_self (pos m) (ground arith) in
      let kept' = wrap_self (pos (m + n)) (ground arith) in
      rw (spaces, fewer, small, back, short, kept, sum, kept')
        (divide-pos (m + n) (suc n) (omega arith) (omega arith))

  is_even_enough-spaces :
      (e.adjust_mode == adjust_both) ≡ true
      → 1 ≤ e.hresolution
      → suc n * e.hresolution ≤ int_max
      → is_even_enough e bp ≡ some (is_tight e bp)
  unfolding is_even_enough
  is_even_enough-spaces both one fits =
      let gained = gain-ceiling one fits in
      let within = ceiling-leb_ℤ m n e.hyphenation_space in
      let some_spaces : ltb_ℤ (pos 0) bp.nspaces ≡ true = ground arith in
      rw (both, some_spaces, gained, short, spaces) (ap some within)

is_even_enough-else :
    (e : Settings) (bp : Breakpoint)
    → IsInt (shortfall e bp)
    → (e.adjust_mode == adjust_both) ≡ false
    → is_even_enough e bp ≡ some (is_tight e bp)
unfolding is_even_enough subtract ckd_sub
is_even_enough-else e bp h other = rw (other, wrap_self (shortfall e bp) h)

is_even_enough-no_spaces :
    (e : Settings) (bp : Breakpoint)
    → (e.adjust_mode == adjust_both) ≡ true
    → ltb_ℤ (pos 0) bp.nspaces ≡ false
    → is_even_enough e bp ≡ some (is_tight e bp)
unfolding is_even_enough
is_even_enough-no_spaces e bp both none_here = rw (both, none_here)

-- What is not negative is a number, and so is what is positive.
as_pos : (z : ℤ) → pos 0 ≤ℤ z → z ≡ pos (pos_part z)
as_pos (pos m) h = refl
as_pos (negsuc m) h = absurd (omega arith)

as_suc : (z : ℤ) → ltb_ℤ (pos 0) z ≡ true → z ≡ pos (suc (pos_part z - 1))
as_suc (pos zero) h = absurd (ground arith)
as_suc (pos (suc n)) h = ap (λ k. pos (suc k)) (omega arith)
as_suc (negsuc m) h = absurd (ground arith)

pub is_even_enough-is_tight :
    (e : Settings) (bp : Breakpoint)
    → 1 ≤ e.hresolution
    → HasSums e bp
    → fits e bp ≡ true
    → is_even_enough e bp ≡ some (is_tight e bp)
is_even_enough-is_tight e bp one sums fit = elim (Bool-cases (e.adjust_mode == adjust_both)) [
  | inr other ↦ is_even_enough-else e bp sums.short other
  | inl both ↦ elim (Bool-cases (ltb_ℤ (pos 0) bp.nspaces)) [
    | inr none_here ↦ is_even_enough-no_spaces e bp both none_here
    | inl some_spaces ↦
        let n = pos_part bp.nspaces - 1 in
        let whole : suc n ≡ pos_part bp.nspaces = ground arith in
        let le : bp.width ≤ℤ e.target_text_length = ground arith in
        let short = as_pos (shortfall e bp) (omega int_laws) in
        is_even_enough-spaces e bp (pos_part (shortfall e bp)) n short
          (as_suc bp.nspaces some_spaces) (rw whole sums.total) both one (rw whole sums.spaces)
  ]
]
