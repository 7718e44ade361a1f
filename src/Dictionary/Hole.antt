-- ===== src/Dictionary/Hole.antt =====
-- The loop of `remove`, which moves entries down into the slot that was emptied.
use groff.Prelude.{
  ℕ, ◌+◌, ◌%◌, ◌≤◌, ◌<◌, ◌≡◌, ◌≢◌, sym, inl, inr, arith, leb, ◌==◌, Bool-cases, ==→eq, leb→le,
}
use groff.Dictionary.{Association, Dictionary, set_slot, previous}
use groff.Dictionary.Gap.{
  gap, gap_lt, gap_self, gap_injective, previous_lt, gap-previous, gap-split, gap-order,
}
use groff.Dictionary.Valid.{
  IsReachable, IsDistinct, Represents, home_lt, used, used-set_slot, set_slot-cases,
}

abbrev pub with_table : Dictionary → (ℕ → Association) → Dictionary
with_table d t = record { capacity = d.capacity; occupancy = d.occupancy; table = t }

module _ (hash : ℕ → ℕ) where
  -- The slot `j` is a hole, and no entry from there down to slot `i` has to pass it on the way from its
  -- home.
  pub record IsHoled (d : Dictionary) (j i : ℕ) : Type 0 where
    pub hole_in : j < d.capacity
    pub here_in : i < d.capacity
    pub hole_empty : (d.table j).v ≡ 0
    pub reachable : IsReachable hash d.capacity j d.table
    pub distinct : IsDistinct d.capacity d.table
    pub counted : d.occupancy ≡ used d.table d.capacity
    pub passed :
        (x : ℕ)
        → x < d.capacity
        → (d.table x).v ≢ 0
        → gap d.capacity j x ≤ gap d.capacity j i
        → gap d.capacity (hash (d.table x).s % d.capacity) x
          ≤ gap d.capacity (hash (d.table x).s % d.capacity) j

  -- The hole is closed.
  pub record IsClosed (d : Dictionary) : Type 0 where
    pub reachable : IsReachable hash d.capacity d.capacity d.table
    pub distinct : IsDistinct d.capacity d.table
    pub counted : d.occupancy ≡ used d.table d.capacity

  -- An empty slot below the ones passed shows that the hole does no harm.
  pub stop-IsReachable :
      (d : Dictionary) (j i : ℕ)
      → IsHoled d j i
      → gap d.capacity j i + 1 < d.capacity
      → (d.table (previous d.capacity i)).v ≡ 0
      → IsReachable hash d.capacity d.capacity d.table
  stop-IsReachable d j i holed near empty x y p q full ne close = elim (Bool-cases (y == j)) [
    | inr other ↦ holed.reachable x y p q full (λ e. ground arith) close
    | inl same ↦
        (let c = d.capacity in
          let h = hash (d.table x).s % c in
          let k = previous c i in
          let ph : h < c = home_lt hash d (d.table x).s (omega (arith, p)) in
          let pk = previous_lt c i holed.here_in in
          let step = gap-previous c j i holed.hole_in holed.here_in near in
          let at_hole : gap c h j < gap c h x = rw (sym (==→eq y j same)) close in
          let split = gap-split c h j x ph holed.hole_in p (omega (arith, at_hole)) in
          elim (Bool-cases (leb (gap c j x) (gap c j i))) [
            | inl near_x ↦ absurd (
                omega
                  (arith, at_hole, holed.passed x p full (leb→le (gap c j x) (gap c j i) near_x)))
            | inr far_x ↦
                (let apart : gap c j x ≢ gap c j k =
                    λ e. full (rw (gap_injective c j x k holed.hole_in p pk e) empty) in
                  let beyond : gap c j k < gap c j x = ground (arith, step, apart) in
                  let whole = gap_lt c h x ph p in
                  let order =
                    gap-order c h j k ph holed.hole_in pk (omega (arith, beyond, split, whole)) in
                  let k_hole : k ≢ j = λ e.
                    (let self : gap c j k ≡ 0 = rw e (gap_self c j) in omega (arith, self, step)) in
                  absurd (
                    holed.reachable x k p pk full k_hole (omega (arith, order, split, beyond))
                      empty))
          ])
  ]

  -- A copy of an empty slot in the hole changes no entry.
  pub copy-IsClosed :
      (d : Dictionary) (j : ℕ) (a : Association)
      → j < d.capacity
      → (d.table j).v ≡ 0
      → a.v ≡ 0
      → IsClosed d
      → IsClosed (with_table d (set_slot d.table j a))
  copy-IsClosed d j a within hole empty closed =
      let same_use : (x : ℕ)
          → (set_slot d.table j a x).v ≢ 0
          → (set_slot d.table j a x ≡ d.table x) × ((d.table x).v ≢ 0) =
        λ x full. elim (set_slot-cases d.table j a x) [
          | inl (same, new) ↦ absurd (full (rw new empty))
          | inr (other, old) ↦ (old, rw old at full)
        ] in
      record {
        reachable = λ x y p q full ne close.
            let at_x = same_use x full in
            let still = closed.reachable x y p q at_x.1 ne (rw at_x.0 at close) in
            elim (set_slot-cases d.table j a y) [
              | inl (same, new) ↦ absurd (still (rw same hole))
              | inr (other, old) ↦ rw old still
            ];
        distinct = λ x y p q full full' same.
            let at_x = same_use x full in
            let at_y = same_use y full' in
            closed.distinct x y p q at_x.1 at_y.1 (rw (at_x.0, at_y.0) at same);
        counted = ground (arith, used-set_slot d.table d.capacity j a within, closed.counted);
      }

  pub copy-Represents :
      (d : Dictionary) (map : ℕ → ℕ) (j : ℕ) (a : Association)
      → (d.table j).v ≡ 0
      → a.v ≡ 0
      → Represents d map
      → Represents (with_table d (set_slot d.table j a)) map
  copy-Represents d map j a hole empty repr = record {
    holds = λ i p full. elim (set_slot-cases d.table j a i) [
      | inl (same, new) ↦ absurd (full (rw new empty))
      | inr (other, old) ↦ rw old (repr.holds i p (rw old at full))
    ];
    covers = λ s known.
        let there = repr.covers s known in
        elim (set_slot-cases d.table j a there.0) [
          | inl (same, new) ↦ absurd (there.3 (rw same hole))
          | inr (other, old) ↦ (there.0, there.1, rw old there.2, rw old there.3)
        ];
  }
