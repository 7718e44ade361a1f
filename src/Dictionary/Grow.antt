-- ===== src/Dictionary/Grow.antt =====
-- A table that has become crowded: the search for a size, and the new table.
use groff.Prelude.{
  ℕ, zero, suc, ◌+◌, ◌*◌, ◌≤◌, ◌<◌, ◌≡◌, ◌≢◌, refl, sym, ◌∙◌, inl, inr, true, false, Option, some,
  arith, ◌==◌, Bool-cases,
}
use groff.Dictionary.{
  Association, Dictionary, is_good_size, is_off_powers, good_size_from, with_entry, is_crowded,
  rehash, lookup,
}
use groff.Dictionary.Valid.{IsValid, IsDistinct, Represents, used, update, Represents-ext}
use groff.Dictionary.Probe.{find_slot-StopsAt, StopsAt-value}
use groff.Dictionary.Insert.{with_entry-IsValid, with_entry-Represents}
use groff.Dictionary.Scan.{scan, scan-next, used_le}

-- A good size leaves a remainder of 256 that is more than ten from both ends.
good_size_big : (p : ℕ) → is_good_size p ≡ true → 20 < p
unfolding is_good_size is_off_powers
good_size_big p h = ground arith

pub good_size_from-bounds : (fuel p q : ℕ) → good_size_from fuel p ≡ some q → (p ≤ q) × (20 < q)
unfolding good_size_from
good_size_from-bounds zero p q h = absurd (ground arith)
good_size_from-bounds (suc fuel) p q h = elim (Bool-cases (is_good_size p)) [
  | inl good ↦ ground (arith, good_size_big p good)
  | inr bad ↦ (let rest = good_size_from-bounds fuel (p + 1) q (rw bad at h) in omega (arith, rest))
]

module _ (store : ℕ → ℕ → Dictionary → Option (ℕ × Dictionary)) (old_table : ℕ → Association) where
  rehash-end : (i : ℕ) (d : Dictionary) → rehash store old_table zero i d ≡ some d
  unfolding rehash
  rehash-end i d = refl

  rehash-skip :
      (n i : ℕ) (d : Dictionary)
      → ((old_table i).v == 0) ≡ true
      → rehash store old_table (suc n) i d ≡ rehash store old_table n (suc i) d
  unfolding rehash
  rehash-skip n i d empty = let next : i + 1 ≡ suc i = omega arith in rw (empty, next)

  rehash-store :
      (n i x : ℕ) (d e : Dictionary)
      → ((old_table i).v == 0) ≡ false
      → store (old_table i).s (old_table i).v d ≡ some (x, e)
      → rehash store old_table (suc n) i d ≡ rehash store old_table n (suc i) e
  unfolding rehash
  rehash-store n i x d e full stored =
      let next : i + 1 ≡ suc i = omega arith in rw (full, stored, next)

module _ (hash : ℕ → ℕ) (fuel depth : ℕ) where
  -- A new symbol is stored where there is room.
  lookup-store :
      (d : Dictionary) (map : ℕ → ℕ) (s v : ℕ)
      → IsValid hash d
      → Represents d map
      → v ≢ 0
      → map s ≡ 0
      → is_crowded (d.occupancy + 1) d.capacity ≡ false
      → (e : Dictionary) × (lookup hash fuel (suc depth) s v d ≡ some (0, e))
        × IsValid hash e
        × Represents e (update map s v)
        × (e.occupancy ≡ d.occupancy + 1)
        × (e.capacity ≡ d.capacity)
  unfolding lookup
  lookup-store d map s v valid repr some_value unknown room =
      let stop = find_slot-StopsAt hash d s valid in
      let empty : (d.table stop.0).v ≡ 0 =
        StopsAt-value hash d map s stop.0 valid repr stop.2 ∙ unknown in
      (
        with_entry d stop.0 s v,
        rw stop.1 (ground arith),
        with_entry-IsValid hash d s v stop.0 valid some_value empty stop.2 room,
        with_entry-Represents hash d s v stop.0 map valid repr some_value empty stop.2,
        refl,
        refl,
      )

  -- The new table takes the rest of the old one.
  pub rehash-Represents :
      (old_table : ℕ → Association) (c n i : ℕ) (d : Dictionary)
      → IsDistinct c old_table
      → i + n ≡ c
      → 2 * used old_table c < d.capacity
      → used old_table c + 1 < d.capacity
      → d.occupancy ≡ used old_table i
      → IsValid hash d
      → Represents d (scan old_table i)
      → (e : Dictionary) × (rehash (lookup hash fuel (suc depth)) old_table n i d ≡ some e)
        × IsValid hash e
        × Represents e (scan old_table c)
  rehash-Represents old_table c zero i d distinct total roomy spare count valid repr =
      let done : i ≡ c = omega arith in
      (d, rehash-end (lookup hash fuel (suc depth)) old_table i d, valid, rw (sym done) repr)
  rehash-Represents old_table c (suc n) i d distinct total roomy spare count valid repr =
      elim (Bool-cases ((old_table i).v == 0)) [
        | inl empty ↦
            (rw (rehash-skip (lookup hash fuel (suc depth)) old_table n i d empty) (
              rehash-Represents old_table c n (suc i) d distinct (omega arith) roomy spare
                (ground arith) valid
                (Represents-ext d (scan old_table i) (scan old_table (suc i)) (λ q. ground arith)
                  repr)))
        | inr full ↦
            (let full_i : (old_table i).v ≢ 0 = ground arith in
              let unknown = scan-next old_table c i distinct (omega arith) full_i in
              let more = used_le old_table (suc i) c (omega arith) in
              let stored =
                lookup-store d (scan old_table i) (old_table i).s (old_table i).v valid repr full_i
                  unknown (ground arith) in
              let e = stored.0 in
              rw (rehash-store (lookup hash fuel (suc depth)) old_table n i 0 d e full stored.1) (
                rehash-Represents old_table c n (suc i) e distinct (omega arith)
                  (omega (arith, roomy, stored.5)) (omega (arith, spare, stored.5))
                  (ground (arith, stored.4)) stored.2
                  (Represents-ext e (update (scan old_table i) (old_table i).s (old_table i).v)
                    (scan old_table (suc i)) (λ q. ground arith) stored.3)))
      ]
