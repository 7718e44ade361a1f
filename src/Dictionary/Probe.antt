-- ===== src/Dictionary/Probe.antt =====
-- The loop that `lookup` and `remove` search a slot with.
use groff.Prelude.{
  ℕ, zero, suc, ◌+◌, ◌%◌, ◌≤◌, ◌<◌, ◌≡◌, ◌≢◌, sym, ap, inl, inr, ◌||◌, some, arith, ltb, ◌==◌,
  Bool-cases, ==_iff, ==→eq, ltb→lt,
}
use groff.Dictionary.{Association, Dictionary, previous, probe, home, find_slot}
use groff.Dictionary.Gap.{gap, gap_lt, gap_self, gap_injective, previous_lt, gap-previous}
use groff.Dictionary.Valid.{IsValid, Represents, used-room, home_lt}

module _ (c : ℕ) (table : ℕ → Association) (s h : ℕ) where
  -- The slots between the home `h` and the slot `i` are in use by other symbols.
  abbrev pub IsPassed : ℕ → Type 0
  IsPassed i = (j : ℕ) → j < c → gap c h j < gap c h i → ((table j).v ≢ 0) × ((table j).s ≢ s)

  -- The slot is empty or that of the symbol.
  pub record StopsAt (i : ℕ) : Type 0 where
    pub within : i < c
    pub found : (table i).v ≢ 0 → (table i).s ≡ s
    pub passed : IsPassed i

  IsPassed-previous :
      (i : ℕ)
      → h < c
      → i < c
      → gap c h i + 1 < c
      → (table i).v ≢ 0
      → (table i).s ≢ s
      → IsPassed i
      → IsPassed (previous c i)
  IsPassed-previous i p q near full other passed j w less =
      let step = gap-previous c h i p q near in
      elim (Bool-cases (gap c h j == gap c h i)) [
        | inl e ↦
            (let same = gap_injective c h j i p w q (==→eq (gap c h j) (gap c h i) e) in
              rw same (full, other))
        | inr ne ↦ passed j w (ground arith)
      ]

  -- With an empty slot `e` ahead, `fuel` that reaches to it is enough.
  pub probe-StopsAt :
      (fuel i e : ℕ)
      → h < c
      → i < c
      → e < c
      → (table e).v ≡ 0
      → gap c h i ≤ gap c h e
      → gap c h e < gap c h i + fuel
      → IsPassed i
      → (r : ℕ) × (probe fuel c table s i ≡ some r) × StopsAt r
  unfolding probe
  probe-StopsAt zero i e p q w empty le less passed = absurd (omega arith)
  probe-StopsAt (suc fuel) i e p q w empty le less passed =
      elim (Bool-cases ((table i).v == 0 || s == (table i).s)) [
        | inl stop ↦ (i, rw stop, record { within = q; found = ground arith; passed = passed })
        | inr go ↦
            (let full : (table i).v ≢ 0 = ground arith in
              let other : (table i).s ≢ s = ground arith in
              let apart : gap c h i ≢ gap c h e =
                λ same. full (rw (gap_injective c h i e p q w same) empty) in
              let bound = gap_lt c h e p w in
              let near : gap c h i + 1 < c = omega arith in
              let step = gap-previous c h i p q near in
              let rest =
                probe-StopsAt fuel (previous c i) e p (previous_lt c i q) w empty (omega arith)
                  (omega arith) (IsPassed-previous i p q near full other passed) in
              rw go rest)
      ]

module _ (hash : ℕ → ℕ) (d : Dictionary) where
  -- A search of the table ends.
  pub find_slot-StopsAt :
      (s : ℕ)
      → IsValid hash d
      → (r : ℕ) × (find_slot hash d s ≡ some r) × StopsAt d.capacity d.table s (home hash d s) r
  unfolding find_slot
  find_slot-StopsAt s valid =
      let c = d.capacity in
      let h = home hash d s in
      let p : h < c = home_lt hash d s (omega (arith, valid.spare)) in
      let free = used-room d.table c (omega (arith, valid.spare, valid.counted)) in
      let near = gap_self c h in
      let far = gap_lt c h free.0 p free.1 in
      probe-StopsAt c d.table s h c h free.0 p p free.1 free.2 (omega arith) (omega arith)
        (λ j w less. absurd (omega arith))

  -- Where it ends at an empty slot, the symbol is in no slot.
  pub StopsAt-absent :
      (s r i : ℕ)
      → IsValid hash d
      → StopsAt d.capacity d.table s (home hash d s) r
      → (d.table r).v ≡ 0
      → i < d.capacity
      → (d.table i).v ≢ 0
      → (d.table i).s ≢ s
  StopsAt-absent s r i valid stops empty w full same =
      let c = d.capacity in
      let h = home hash d s in
      let p : h < c = home_lt hash d s (omega (arith, valid.spare)) in
      let home_same : hash (d.table i).s % c ≡ h = ap (λ t. hash t % c) same in
      elim (Bool-cases (ltb (gap c h i) (gap c h r))) [
        | inl less ↦ (stops.passed i w (ltb→lt (gap c h i) (gap c h r) less)).1 same
        | inr far ↦ elim (Bool-cases (gap c h i == gap c h r)) [
          | inl e ↦
              (let here =
                  gap_injective c h i r p w stops.within (==→eq (gap c h i) (gap c h r) e) in
                full (rw here empty))
          | inr ne ↦
              valid.reachable i r w stops.within full (omega (arith, stops.within))
                (rw home_same (ground arith)) empty
        ]
      ]

  -- Where it ends at a slot in use, that is the slot of the symbol.
  pub StopsAt-value :
      (map : ℕ → ℕ) (s r : ℕ)
      → IsValid hash d
      → Represents d map
      → StopsAt d.capacity d.table s (home hash d s) r
      → (d.table r).v ≡ map s
  StopsAt-value map s r valid repr stops = elim (Bool-cases ((d.table r).v == 0)) [
    | inl none_here ↦
        (let empty = (==_iff (d.table r).v 0).0 none_here in
          elim (Bool-cases (map s == 0)) [
            | inl unknown ↦ omega (arith, empty, ==→eq (map s) 0 unknown)
            | inr known ↦
                (let there = repr.covers s (ground arith) in
                  absurd (StopsAt-absent s r there.0 valid stops empty there.1 there.3 there.2))
          ])
    | inr here ↦
        (let full : (d.table r).v ≢ 0 = ground arith in
          rw (sym (stops.found full)) (sym (repr.holds r stops.within full)))
  ]
