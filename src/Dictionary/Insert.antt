-- ===== src/Dictionary/Insert.antt =====
-- What `lookup` does at the slot where its search ends, while the table has room.
use groff.Prelude.{ℕ, ◌+◌, ◌<◌, ◌≡◌, ◌≢◌, sym, inl, inr, false, arith, ◌==◌, Bool-cases}
use groff.Dictionary.{Dictionary, with_entry, is_crowded, home}
use groff.Dictionary.Valid.{
  IsValid, IsReachable, IsDistinct, Represents, used, used-set_slot, set_slot-cases, update,
}
use groff.Dictionary.Probe.{StopsAt, StopsAt-absent}

module _ (hash : ℕ → ℕ) (d : Dictionary) (s v r : ℕ) where
  with_entry-IsReachable :
      IsValid hash d
      → v ≢ 0
      → (d.table r).v ≡ 0
      → StopsAt d.capacity d.table s (home hash d s) r
      → IsReachable hash d.capacity d.capacity (with_entry d r s v).table
  with_entry-IsReachable valid some_value empty stops i j p q full ne near =
      elim (set_slot-cases d.table r (record { s = s; v = v }) j) [
        | inl (same_j, new_j) ↦ rw new_j some_value
        | inr (other_j, old_j) ↦ elim (set_slot-cases d.table r (record { s = s; v = v }) i) [
          | inl (same_i, new_i) ↦
              (let close = rw new_i at near in
                rw old_j ((stops.passed j q (rw (sym same_i) close)).0))
          | inr (other_i, old_i) ↦
              rw old_j (valid.reachable i j p q (rw old_i at full) ne (rw old_i at near))
        ]
      ]

  pub with_entry-IsDistinct :
      IsValid hash d
      → (d.table r).v ≡ 0
      → StopsAt d.capacity d.table s (home hash d s) r
      → IsDistinct d.capacity (with_entry d r s v).table
  with_entry-IsDistinct valid empty stops i j p q full full' same =
      elim (set_slot-cases d.table r (record { s = s; v = v }) i) [
        | inl (same_i, new_i) ↦ elim (set_slot-cases d.table r (record { s = s; v = v }) j) [
          | inl (same_j, new_j) ↦ omega (arith, same_i, same_j)
          | inr (other_j, old_j) ↦ absurd (
              StopsAt-absent hash d s r j valid stops empty q (rw old_j at full')
                (sym (rw (new_i, old_j) at same)))
        ]
        | inr (other_i, old_i) ↦ elim (set_slot-cases d.table r (record { s = s; v = v }) j) [
          | inl (same_j, new_j) ↦ absurd (
              StopsAt-absent hash d s r i valid stops empty p (rw old_i at full)
                (rw (new_j, old_i) at same))
          | inr (other_j, old_j) ↦
              valid.distinct i j p q (rw old_i at full) (rw old_j at full')
                (rw (old_i, old_j) at same)
        ]
      ]

  pub with_entry-counted :
      IsValid hash d
      → v ≢ 0
      → (d.table r).v ≡ 0
      → r < d.capacity
      → d.occupancy + 1 ≡ used (with_entry d r s v).table d.capacity
  with_entry-counted valid some_value empty within =
      let e = used-set_slot d.table d.capacity r (record { s = s; v = v }) within in
      ground (arith, e, valid.counted)

  pub with_entry-IsValid :
      IsValid hash d
      → v ≢ 0
      → (d.table r).v ≡ 0
      → StopsAt d.capacity d.table s (home hash d s) r
      → is_crowded (d.occupancy + 1) d.capacity ≡ false
      → IsValid hash (with_entry d r s v)
  with_entry-IsValid valid some_value empty stops room = record {
    reachable = with_entry-IsReachable valid some_value empty stops;
    distinct = with_entry-IsDistinct valid empty stops;
    counted = with_entry-counted valid some_value empty stops.within;
    roomy = ground arith;
    spare = ground arith;
  }

  pub with_entry-Represents :
      (map : ℕ → ℕ)
      → IsValid hash d
      → Represents d map
      → v ≢ 0
      → (d.table r).v ≡ 0
      → StopsAt d.capacity d.table s (home hash d s) r
      → Represents (with_entry d r s v) (update map s v)
  with_entry-Represents map valid repr some_value empty stops = record {
    holds = λ i p full. elim (set_slot-cases d.table r (record { s = s; v = v }) i) [
      | inl (same, new) ↦ rw new (ground arith)
      | inr (other, old) ↦ rw old (
          let here = rw old at full in
          let apart = StopsAt-absent hash d s r i valid stops empty p here in
          ground (arith, repr.holds i p here))
    ];
    covers = λ q known. elim (Bool-cases (q == s)) [
      | inl same ↦ (r, stops.within, ground arith, ground arith)
      | inr other ↦
          (let there = repr.covers q (rw other at known) in
            elim (set_slot-cases d.table r (record { s = s; v = v }) there.0) [
              | inl (hit, new) ↦ absurd (there.3 (rw hit empty))
              | inr (miss, old) ↦ (there.0, there.1, rw old there.2, rw old there.3)
            ])
    ];
  }
