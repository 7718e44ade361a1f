-- ===== src/Dictionary/Gap.antt =====
-- How many steps down, past slot 0 to the last one, a probe takes from one slot to another.
use groff.Prelude.{ℕ, ◌+◌, ◌-◌, ◌≤◌, ◌<◌, ◌≡◌, ◌≢◌, not, arith, ltb, leb, if◌then◌else◌}
use groff.Dictionary.{previous, keeps_place}

abbrev pub gap : ℕ → ℕ → ℕ → ℕ
gap c h j = if leb j h then h - j else h + c - j

module _ (c : ℕ) where
  pub gap_lt : (h j : ℕ) → h < c → j < c → gap c h j < c
  gap_lt h j p q = ground arith

  pub gap_self : (h : ℕ) → gap c h h ≡ 0
  gap_self h = ground arith

  pub gap_injective : (h i j : ℕ) → h < c → i < c → j < c → gap c h i ≡ gap c h j → i ≡ j
  gap_injective h i j p q r e = ground arith

  pub previous_lt : (i : ℕ) → i < c → previous c i < c
  previous_lt i p = ground arith

  pub gap-previous :
      (h i : ℕ) → h < c → i < c → gap c h i + 1 < c → gap c h (previous c i) ≡ gap c h i + 1
  gap-previous h i p q r = ground arith

  -- Towards a slot ahead, a step brings the probe one nearer.
  pub gap-toward : (i e : ℕ) → i < c → e < c → i ≢ e → gap c (previous c i) e + 1 ≡ gap c i e
  gap-toward i e p q ne = ground arith

  -- A slot that the way from `h` to `i` passes splits it in two.
  pub gap-split :
      (h j i : ℕ)
      → h < c
      → j < c
      → i < c
      → gap c h j ≤ gap c h i
      → gap c h j + gap c j i ≡ gap c h i
  gap-split h j i p q r le = ground arith

  pub gap-order :
      (h j i : ℕ)
      → h < c
      → j < c
      → i < c
      → gap c h j + gap c j i < c
      → gap c h j + gap c j i ≡ gap c h i
  gap-order h j i p q r le = ground arith

  -- An entry keeps its place unless the hole is on the way from its home to it.
  pub keeps_place-gap :
      (i r j : ℕ)
      → i < c
      → r < c
      → j < c
      → i ≢ j
      → keeps_place i r j ≡ not (ltb (gap c r j) (gap c r i))
  unfolding keeps_place
  keeps_place-gap i r j p q w ne = ground arith
