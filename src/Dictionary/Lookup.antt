-- ===== src/Dictionary/Lookup.antt =====
-- `lookup`, as an operation on the map that the table stands for.
use groff.Prelude.{
  ℕ, suc, ◌+◌, ◌≡◌, ◌≢◌, refl, sym, ◌∙◌, inl, inr, true, false, not, ◌&&◌, some, arith, ◌==◌,
  if◌then◌else◌, Bool-cases, ==→eq,
}
use groff.Dictionary.{
  Dictionary, good_size_from, with_value, with_entry, is_crowded, rehash, lookup, find_slot,
  new_dictionary, grown, home,
}
use groff.Dictionary.Valid.{
  IsValid, Represents, Represents-ext, update, new_dictionary-IsValid, new_dictionary-Represents,
}
use groff.Dictionary.Probe.{StopsAt, find_slot-StopsAt, StopsAt-value}
use groff.Dictionary.Insert.{
  with_entry-IsValid, with_entry-Represents, with_entry-IsDistinct, with_entry-counted,
}
use groff.Dictionary.Replace.{with_value-IsValid, with_value-Represents}
use groff.Dictionary.Scan.{scan, scan-Represents}
use groff.Dictionary.Grow.{good_size_from-bounds, rehash-Represents}

-- What a map becomes: a null value changes nothing.
abbrev pub looked_up : (ℕ → ℕ) → ℕ → ℕ → ℕ → ℕ
looked_up map s v q = if not (v == 0) && q == s then v else map q

-- Where a new symbol makes the table crowded, the search finds a size for a larger one.
abbrev pub CanGrow : ℕ → Dictionary → ℕ → Type 0
CanGrow fuel d v =
    v ≢ 0
    → is_crowded (d.occupancy + 1) d.capacity ≡ true
    → (size : ℕ) × (good_size_from fuel (grown d.capacity) ≡ some size)

module _ (hash : ℕ → ℕ) (fuel depth : ℕ) (d : Dictionary) (s v r : ℕ) where
  lookup-found :
      find_slot hash d s ≡ some r
      → (d.table r).v ≢ 0
      → lookup hash fuel (suc depth) s v d
        ≡ some ((d.table r).v, (if not (v == 0) then with_value d r s v else d))
  unfolding lookup
  lookup-found e full = rw e (ground arith)

  lookup-missing :
      find_slot hash d s ≡ some r
      → (d.table r).v ≡ 0
      → v ≡ 0
      → lookup hash fuel (suc depth) s v d ≡ some (0, d)
  unfolding lookup
  lookup-missing e empty null = rw e (ground arith)

  lookup-placed :
      find_slot hash d s ≡ some r
      → (d.table r).v ≡ 0
      → v ≢ 0
      → is_crowded (d.occupancy + 1) d.capacity ≡ false
      → lookup hash fuel (suc depth) s v d ≡ some (0, with_entry d r s v)
  unfolding lookup
  lookup-placed e empty some_value room = rw e (ground arith)

  lookup-grown :
      (size : ℕ) (e : Dictionary)
      → find_slot hash d s ≡ some r
      → (d.table r).v ≡ 0
      → v ≢ 0
      → is_crowded (d.occupancy + 1) d.capacity ≡ true
      → good_size_from fuel (grown d.capacity) ≡ some size
      → rehash
          (lookup hash fuel depth)
          (with_entry d r s v).table
          d.capacity
          0
          (new_dictionary size)
        ≡ some e
      → lookup hash fuel (suc depth) s v d ≡ some (0, e)
  unfolding lookup
  lookup-grown size e found empty some_value crowded sized put =
      let free : ((d.table r).v == 0) ≡ true = ground arith in
      let given : (v == 0) ≡ false = ground arith in rw (found, free, given, crowded, sized, put)

module _ (hash : ℕ → ℕ) (fuel : ℕ) (d : Dictionary) (s v : ℕ) (map : ℕ → ℕ) where
  -- What a call of `lookup` promises of its result.
  abbrev pub IsLookedUp : ℕ → Type 0
  IsLookedUp deep =
      (e : Dictionary) × (lookup hash fuel deep s v d ≡ some (map s, e))
      × IsValid hash e
      × Represents e (looked_up map s v)

module _ (hash : ℕ → ℕ) (fuel depth : ℕ) (d : Dictionary) (s v : ℕ) (map : ℕ → ℕ) where
  IsLookedUp-known :
      (r : ℕ)
      → IsValid hash d
      → Represents d map
      → find_slot hash d s ≡ some r
      → StopsAt d.capacity d.table s (home hash d s) r
      → (d.table r).v ≢ 0
      → IsLookedUp hash fuel d s v map (suc (suc depth))
  IsLookedUp-known r valid repr stop stops full =
      let value = StopsAt-value hash d map s r valid repr stops in
      let found = lookup-found hash fuel (suc depth) d s v r stop full in
      elim (Bool-cases (v == 0)) [
        | inl null ↦ (
          d,
          rw found (rw (null, value)),
          valid,
          Represents-ext d map (looked_up map s v) (λ q. rw null) repr,
        )
        | inr given ↦
            (let some_value : v ≢ 0 = ground arith in
              (
                with_value d r s v,
                rw found (rw (given, value)),
                with_value-IsValid hash d s v r valid some_value full stops.within,
                Represents-ext (with_value d r s v) (update map s v) (looked_up map s v)
                    (λ q. rw given)
                    (with_value-Represents hash d s v r map valid repr some_value full
                      (stops.found full) stops.within),
              ))
      ]

  IsLookedUp-crowded :
      (r size : ℕ)
      → IsValid hash d
      → Represents d map
      → find_slot hash d s ≡ some r
      → StopsAt d.capacity d.table s (home hash d s) r
      → (d.table r).v ≡ 0
      → v ≢ 0
      → is_crowded (d.occupancy + 1) d.capacity ≡ true
      → good_size_from fuel (grown d.capacity) ≡ some size
      → IsLookedUp hash fuel d s v map (suc (suc depth))
  IsLookedUp-crowded r size valid repr stop stops empty some_value crowded sized =
      let filled = with_entry d r s v in
      let distinct = with_entry-IsDistinct hash d s v r valid empty stops in
      let count = with_entry-counted hash d s v r valid some_value empty stops.within in
      let size_bounds = good_size_from-bounds fuel (grown d.capacity) size sized in
      let unknown : 0 ≡ map s = sym empty ∙ StopsAt-value hash d map s r valid repr stops in
      let filled-Represents =
        with_entry-Represents hash d s v r map valid repr some_value empty stops in
      let given : (v == 0) ≡ false = ground arith in
      let moved =
        rehash-Represents hash fuel depth filled.table d.capacity d.capacity 0 (new_dictionary size)
          distinct (omega arith) (omega (arith, count, size_bounds, valid.roomy))
          (omega (arith, count, size_bounds, valid.roomy)) refl
          (new_dictionary-IsValid hash size (omega (arith, size_bounds)))
          (new_dictionary-Represents size) in
      (
        moved.0,
        rw (sym unknown) (
            lookup-grown hash fuel (suc depth) d s v r size moved.0 stop empty some_value crowded
              sized moved.1),
        moved.2,
        Represents-ext moved.0 (scan filled.table d.capacity) (looked_up map s v)
            (λ q. scan-Represents filled (update map s v) q filled-Represents ∙ rw given) moved.3,
      )

  IsLookedUp-unknown :
      (r : ℕ)
      → IsValid hash d
      → Represents d map
      → find_slot hash d s ≡ some r
      → StopsAt d.capacity d.table s (home hash d s) r
      → (d.table r).v ≡ 0
      → CanGrow fuel d v
      → IsLookedUp hash fuel d s v map (suc (suc depth))
  IsLookedUp-unknown r valid repr stop stops empty sized =
      let unknown : 0 ≡ map s = sym empty ∙ StopsAt-value hash d map s r valid repr stops in
      elim (Bool-cases (v == 0)) [
        | inl null ↦ (
          d,
          rw (sym unknown)
              (lookup-missing hash fuel (suc depth) d s v r stop empty (==→eq v 0 null)),
          valid,
          Represents-ext d map (looked_up map s v) (λ q. rw null) repr,
        )
        | inr given ↦
            (let some_value : v ≢ 0 = ground arith in
              elim (Bool-cases (is_crowded (d.occupancy + 1) d.capacity)) [
                | inl crowded ↦
                    (let found = sized some_value crowded in
                      IsLookedUp-crowded r found.0 valid repr stop stops empty some_value crowded
                        found.1)
                | inr room ↦ (
                  with_entry d r s v,
                  rw (sym unknown)
                      (lookup-placed hash fuel (suc depth) d s v r stop empty some_value room),
                  with_entry-IsValid hash d s v r valid some_value empty stops room,
                  Represents-ext (with_entry d r s v) (update map s v) (looked_up map s v)
                      (λ q. rw given)
                      (with_entry-Represents hash d s v r map valid repr some_value empty stops),
                )
              ])
      ]

  -- In a valid table that stands for a map, `lookup` ends, returns what the map has for the symbol, 0 where
  -- it has nothing, and leaves a valid table, which stands for the map with the new value, or for the same
  -- map where the value is null. Where the table has to grow, one of the `fuel` sizes that are tried has to
  -- be good.
  pub lookup-Represents :
      IsValid hash d
      → Represents d map
      → CanGrow fuel d v
      → IsLookedUp hash fuel d s v map (suc (suc depth))
  lookup-Represents valid repr sized =
      let stop = find_slot-StopsAt hash d s valid in
      elim (Bool-cases ((d.table stop.0).v == 0)) [
        | inl empty ↦
            IsLookedUp-unknown stop.0 valid repr stop.1 stop.2 (==→eq (d.table stop.0).v 0 empty)
              sized
        | inr full ↦ IsLookedUp-known stop.0 valid repr stop.1 stop.2 (ground arith)
      ]

module _ (hash : ℕ → ℕ) (fuel depth : ℕ) (d : Dictionary) (s : ℕ) (map : ℕ → ℕ) where
  pub lookup-null :
      IsValid hash d → Represents d map → lookup hash fuel (suc depth) s 0 d ≡ some (map s, d)
  lookup-null valid repr =
      let stop = find_slot-StopsAt hash d s valid in
      let value = StopsAt-value hash d map s stop.0 valid repr stop.2 in
      elim (Bool-cases ((d.table stop.0).v == 0)) [
        | inl empty ↦
            (let unknown : 0 ≡ map s = sym (==→eq (d.table stop.0).v 0 empty) ∙ value in
              rw (sym unknown) (
                lookup-missing hash fuel depth d s 0 stop.0 stop.1
                  (==→eq (d.table stop.0).v 0 empty) refl))
        | inr full ↦
            rw (sym value) (lookup-found hash fuel depth d s 0 stop.0 stop.1 (ground arith))
      ]
