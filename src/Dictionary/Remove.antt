-- ===== src/Dictionary/Remove.antt =====
-- `remove`, as an operation on the map that the table stands for.
use groff.Prelude.{
  ℕ, ◌-◌, ◌≤◌, ◌<◌, ◌≡◌, ◌≢◌, refl, sym, ◌∙◌, inl, inr, false, some, arith, ◌==◌, Bool-cases, ==→eq,
}
use groff.Dictionary.{Association, Dictionary, set_slot, close_hole, remove, find_slot}
use groff.Dictionary.Gap.{gap, gap_lt, gap_self, gap_injective}
use groff.Dictionary.Valid.{
  IsValid, Represents, Represents-ext, used-set_slot, set_slot-cases, update, used-room,
}
use groff.Dictionary.Probe.{find_slot-StopsAt, StopsAt-value}
use groff.Dictionary.Hole.{IsHoled, with_table}
use groff.Dictionary.Close.{close_hole-IsClosed}

module _ (hash : ℕ → ℕ) (d : Dictionary) (s r : ℕ) where
  -- The entry in slot `r` is gone, and the slot is a hole.
  abbrev emptied : Dictionary
  emptied = record {
    capacity = d.capacity;
    occupancy = d.occupancy - 1;
    table = set_slot d.table r (record { s = (d.table r).s; v = 0 });
  }

  -- An entry that is left is another one.
  kept :
      (x : ℕ)
      → (emptied.table x).v ≢ 0
      → (x ≢ r) × ((d.table x).v ≢ 0) × (emptied.table x ≡ d.table x)
  kept x full = elim (set_slot-cases d.table r (record { s = (d.table r).s; v = 0 }) x) [
    | inl (same, new) ↦ absurd (full (rw new))
    | inr (other, old) ↦ (other, rw old at full, old)
  ]

  gone_at : (x : ℕ) → x ≡ r → (emptied.table x).v ≡ 0
  gone_at x e = elim (set_slot-cases d.table r (record { s = (d.table r).s; v = 0 }) x) [
    | inl (same, new) ↦ rw new
    | inr (other, old) ↦ absurd (other e)
  ]

  still_free : (x : ℕ) → x ≢ r → (d.table x).v ≡ 0 → (emptied.table x).v ≡ 0
  still_free x apart empty =
      elim (set_slot-cases d.table r (record { s = (d.table r).s; v = 0 }) x) [
        | inl (same, new) ↦ rw new
        | inr (other, old) ↦ rw old empty
      ]

  emptied-IsHoled : IsValid hash d → r < d.capacity → (d.table r).v ≢ 0 → IsHoled hash emptied r r
  emptied-IsHoled valid pr in_use = record {
    hole_in = pr;
    here_in = pr;
    hole_empty = gone_at r refl;
    reachable = λ x y p q full ne close.
        let at_x = kept x full in
        let still = valid.reachable x y p q at_x.1 (omega (arith, q)) (rw at_x.2 at close) in
        elim (set_slot-cases d.table r (record { s = (d.table r).s; v = 0 }) y) [
          | inl (same, new) ↦ absurd (ne same)
          | inr (other, old) ↦ rw old still
        ];
    distinct = λ x y p q full full' same.
        let at_x = kept x full in
        let at_y = kept y full' in
        valid.distinct x y p q at_x.1 at_y.1 (rw (at_x.2, at_y.2) at same);
    counted =
        let count = used-set_slot d.table d.capacity r (record { s = (d.table r).s; v = 0 }) pr in
        ground (arith, count, valid.counted);
    passed = λ x p full reached.
        let self = gap_self d.capacity r in
        absurd
          ((kept x full).0 (gap_injective d.capacity r x r pr p pr (omega (arith, reached, self))));
  }

  emptied-Represents :
      (map : ℕ → ℕ)
      → IsValid hash d
      → Represents d map
      → r < d.capacity
      → (d.table r).v ≢ 0
      → (d.table r).s ≡ s
      → Represents emptied (update map s 0)
  emptied-Represents map valid repr pr in_use found = record {
    holds = λ x p full.
        let at_x = kept x full in
        let apart : (d.table x).s ≢ s =
          λ e. at_x.0 (valid.distinct x r p pr at_x.1 in_use (e ∙ sym found)) in
        rw at_x.2 (ground (arith, apart, repr.holds x p at_x.1));
    covers = λ q known. elim (Bool-cases (q == s)) [
      | inl same ↦ absurd (known (rw same))
      | inr other ↦
          (let hit : (x : ℕ) → x ≡ r → (d.table x).s ≡ q → ⊥ = λ x at_r symbol.
              (let q_is : q ≡ s = sym symbol ∙ (rw at_r found) in ground (arith, q_is)) in
            let there = repr.covers q (rw other at known) in
            elim (set_slot-cases d.table r (record { s = (d.table r).s; v = 0 }) there.0) [
              | inl (same, new) ↦ absurd (hit there.0 same there.2)
              | inr (apart, old) ↦ (there.0, there.1, rw old there.2, rw old there.3)
            ])
    ];
  }

module _ (hash : ℕ → ℕ) (s r : ℕ) (d : Dictionary) where
  remove-absent : find_slot hash d s ≡ some r → (d.table r).v ≡ 0 → remove hash s d ≡ some (0, d)
  unfolding remove
  remove-absent stop empty = rw stop (ground arith)

  remove-found :
      (t : ℕ → Association)
      → find_slot hash d s ≡ some r
      → (d.table r).v ≢ 0
      → close_hole hash d.capacity d.capacity (emptied hash d s r).table r r ≡ some t
      → remove hash s d ≡ some ((d.table r).v, with_table (emptied hash d s r) t)
  unfolding remove
  remove-found t stop in_use closed =
      let full : ((d.table r).v == 0) ≡ false = ground arith in rw (stop, full, closed)

module _ (hash : ℕ → ℕ) (s : ℕ) (d : Dictionary) (map : ℕ → ℕ) where
  -- In a valid table that stands for a map, `remove` ends, returns what the map has for the symbol, 0 where
  -- it has nothing, and leaves a valid table, which stands for the map without the symbol. The table keeps its size, and has no more entries.
  pub remove-Represents :
      IsValid hash d
      → Represents d map
      → (e : Dictionary) × (remove hash s d ≡ some (map s, e))
        × IsValid hash e
        × Represents e (update map s 0)
        × (e.capacity ≡ d.capacity)
        × (e.occupancy ≤ d.occupancy)
  remove-Represents valid repr =
      let c = d.capacity in
      let stop = find_slot-StopsAt hash d s valid in
      let r = stop.0 in
      let pr : r < c = stop.2.within in
      let value = StopsAt-value hash d map s r valid repr stop.2 in
      elim (Bool-cases ((d.table r).v == 0)) [
        | inl absent ↦
            (let empty = ==→eq (d.table r).v 0 absent in
              let unknown : 0 ≡ map s = sym empty ∙ value in
              (
                d,
                rw (sym unknown) (remove-absent hash s r d stop.1 empty),
                valid,
                Represents-ext d map (update map s 0) (λ q. ground (arith, unknown)) repr,
                refl,
                omega arith,
              ))
        | inr present ↦
            (let in_use : (d.table r).v ≢ 0 = ground arith in
              let free = used-room d.table c (omega (arith, valid.spare, valid.counted)) in
              let e = free.0 in
              let apart : e ≢ r = λ same. in_use (rw (sym same) free.2) in
              let self = gap_self c r in
              let ahead : gap c r r ≢ gap c r e =
                λ same. apart (sym (gap_injective c r r e pr pr free.1 same)) in
              let far = gap_lt c r e pr free.1 in
              let closed =
                close_hole-IsClosed hash (update map s 0) c (emptied hash d s r) r r e
                  (emptied-IsHoled hash d s r valid pr in_use)
                  (emptied-Represents hash d s r map valid repr pr in_use (stop.2.found in_use))
                  free.1 (still_free hash d s r e apart free.2) (omega (arith, self, ahead))
                  (omega (arith, far)) in
              (
                with_table (emptied hash d s r) closed.0,
                rw (sym value) (remove-found hash s r d closed.0 stop.1 in_use closed.1),
                record {
                  reachable = closed.2.reachable;
                  distinct = closed.2.distinct;
                  counted = closed.2.counted;
                  roomy = omega (arith, valid.roomy);
                  spare = omega (arith, valid.spare);
                },
                closed.3,
                refl,
                omega arith,
              ))
      ]
