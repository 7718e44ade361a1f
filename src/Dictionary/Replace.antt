-- ===== src/Dictionary/Replace.antt =====
-- What `lookup` does to the slot of a symbol that is there: it changes the value.
use groff.Prelude.{ℕ, ◌<◌, ◌≡◌, ◌≢◌, refl, ◌∙◌, inl, inr, arith, ◌==◌, Bool-cases}
use groff.Dictionary.{Dictionary, with_value}
use groff.Dictionary.Valid.{IsValid, Represents, used-set_slot, set_slot-cases, update}

module _ (d : Dictionary) (v r : ℕ) where
  -- Every slot keeps its symbol, and stays empty or in use.
  with_value-slot :
      (i s : ℕ)
      → v ≢ 0
      → (d.table r).v ≢ 0
      → (((with_value d r s v).table i).s ≡ (d.table i).s)
        × (((with_value d r s v).table i).v ≢ 0 → (d.table i).v ≢ 0)
        × ((d.table i).v ≢ 0 → ((with_value d r s v).table i).v ≢ 0)
  with_value-slot i s some_value full =
      elim (set_slot-cases d.table r (record { s = (d.table r).s; v = v }) i) [
        | inl (same, new) ↦ (rw new (rw same refl), (λ h. rw same full), λ h. rw new some_value)
        | inr (other, old) ↦ (rw old refl, (λ h. rw old at h), λ h. rw old h)
      ]

module _ (hash : ℕ → ℕ) (d : Dictionary) (s v r : ℕ) where
  pub with_value-IsValid :
      IsValid hash d
      → v ≢ 0
      → (d.table r).v ≢ 0
      → r < d.capacity
      → IsValid hash (with_value d r s v)
  with_value-IsValid valid some_value full within = record {
    reachable = λ i j p q full_i ne near.
        let at_i = with_value-slot d v r i s some_value full in
        let at_j = with_value-slot d v r j s some_value full in
        at_j.2 (valid.reachable i j p q (at_i.1 full_i) ne (rw at_i.0 at near));
    distinct = λ i j p q full_i full_j same.
        let at_i = with_value-slot d v r i s some_value full in
        let at_j = with_value-slot d v r j s some_value full in
        valid.distinct i j p q (at_i.1 full_i) (at_j.1 full_j) (rw (at_i.0, at_j.0) at same);
    counted =
        let e = used-set_slot d.table d.capacity r (record { s = (d.table r).s; v = v }) within in
        ground (arith, e, valid.counted);
    roomy = valid.roomy;
    spare = valid.spare;
  }

  pub with_value-Represents :
      (map : ℕ → ℕ)
      → IsValid hash d
      → Represents d map
      → v ≢ 0
      → (d.table r).v ≢ 0
      → (d.table r).s ≡ s
      → r < d.capacity
      → Represents (with_value d r s v) (update map s v)
  with_value-Represents map valid repr some_value full found within = record {
    holds = λ i p full_i. elim (set_slot-cases d.table r (record { s = (d.table r).s; v = v }) i) [
      | inl (same, new) ↦ rw new (rw found (ground arith))
      | inr (other, old) ↦ rw old (
          let here = rw old at full_i in
          let apart : (d.table i).s ≢ s =
            λ e. other (valid.distinct i r p within here full (rw (e, found) refl)) in
          ground (arith, repr.holds i p here))
    ];
    covers = λ q known. elim (Bool-cases (q == s)) [
      | inl same ↦ (r, within, ground arith, ground arith)
      | inr other ↦
          (let there = repr.covers q (rw other at known) in
            let slot = with_value-slot d v r there.0 s some_value full in
            (there.0, there.1, slot.0 ∙ there.2, slot.2 there.3))
    ];
  }
