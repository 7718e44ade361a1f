-- ===== src/Dictionary/Close.antt =====
-- The loop of `remove` ends, and leaves no hole.
use groff.Prelude.{
  ℕ, zero, suc, ◌+◌, ◌%◌, ◌≤◌, ◌<◌, ◌≡◌, ◌≢◌, refl, sym, ◌∙◌, inl, inr, true, false, some, arith,
  ◌==◌, Bool-cases, ==→eq,
}
use groff.Dictionary.{Association, Dictionary, set_slot, previous, keeps_place, close_hole}
use groff.Dictionary.Gap.{
  gap, gap_lt, gap_self, gap_injective, previous_lt, gap-previous, gap-split, keeps_place-gap,
}
use groff.Dictionary.Valid.{IsReachable, IsDistinct, Represents, home_lt, used}
use groff.Dictionary.Hole.{
  IsHoled, IsClosed, with_table, stop-IsReachable, copy-IsClosed, copy-Represents,
}
use groff.Dictionary.Move.{
  move_entry, move_entry-cases, move_entry-IsDistinct, move_entry-used, move_entry-Represents,
  move_entry-IsReachable,
}

module _ (hash : ℕ → ℕ) where
  -- An entry that keeps its place is passed.
  pass-IsHoled :
      (d : Dictionary) (j i : ℕ)
      → IsHoled hash d j i
      → gap d.capacity j i + 1 < d.capacity
      → (d.table (previous d.capacity i)).v ≢ 0
      → keeps_place
          (previous d.capacity i)
          (hash (d.table (previous d.capacity i)).s % d.capacity)
          j
        ≡ true
      → IsHoled hash d j (previous d.capacity i)
  pass-IsHoled d j i holed near in_use keeps = record {
    hole_in = holed.hole_in;
    here_in = previous_lt d.capacity i holed.here_in;
    hole_empty = holed.hole_empty;
    reachable = holed.reachable;
    distinct = holed.distinct;
    counted = holed.counted;
    passed = λ x p full reached.
        let c = d.capacity in
        let k = previous c i in
        let pk = previous_lt c i holed.here_in in
        let step = gap-previous c j i holed.hole_in holed.here_in near in
        elim (Bool-cases (gap c j x == gap c j k)) [
          | inl same ↦
              (let at_k =
                  gap_injective c j x k holed.hole_in p pk (==→eq (gap c j x) (gap c j k) same) in
                let r = hash (d.table k).s % c in
                let off_j : k ≢ j = λ e. in_use (rw e holed.hole_empty) in
                let order =
                  keeps_place-gap c k r j pk (home_lt hash d (d.table k).s (omega (arith, pk)))
                    holed.hole_in off_j in
                let uncrossed : gap c r k ≤ gap c r j = ground (arith, order, keeps) in
                rw at_k uncrossed)
          | inr other ↦ holed.passed x p full (ground (arith, step))
        ];
  }

  -- An entry that is moved leaves a hole, behind which no entry is passed yet.
  move-IsHoled :
      (d : Dictionary) (j k : ℕ)
      → k < d.capacity
      → (d.table k).v ≢ 0
      → (d.table j).v ≡ 0
      → j < d.capacity
      → IsReachable hash d.capacity j d.table
      → IsDistinct d.capacity d.table
      → d.occupancy ≡ used d.table d.capacity
      → keeps_place k (hash (d.table k).s % d.capacity) j ≡ false
      → IsHoled hash (move_entry d j k) k k
  move-IsHoled d j k pk in_use hole pj reachable distinct counted crossed = record {
    hole_in = pk;
    here_in = pk;
    hole_empty = elim (move_entry-cases d j k k) [
      | inl (same, gone) ↦ gone
      | inr (inl (off, at_j, new)) ↦ absurd (off refl)
      | inr (inr (off, off_j, old)) ↦ absurd (off refl)
    ];
    reachable = move_entry-IsReachable d j k hash pk in_use hole reachable (
        let r = hash (d.table k).s % d.capacity in
        let off_j : k ≢ j = λ e. in_use (rw e hole) in
        let order =
          keeps_place-gap d.capacity k r j pk (home_lt hash d (d.table k).s (omega (arith, pk))) pj
            off_j in
        ground (arith, order, crossed));
    distinct = move_entry-IsDistinct d j k pk in_use distinct;
    counted = counted ∙ sym (move_entry-used d j k pj pk hole in_use);
    passed = λ x p full reached.
        let none_left = gap_self d.capacity k in
        let same : x ≡ k =
          gap_injective d.capacity k x k pk p pk (omega (arith, reached, none_left)) in
        rw same (omega arith);
  }

module _ (hash : ℕ → ℕ) (fuel : ℕ) (d : Dictionary) (j i : ℕ) where
  close_hole-stop :
      (d.table (previous d.capacity i)).v ≡ 0
      → close_hole hash (suc fuel) d.capacity d.table j i
        ≡ some (set_slot d.table j (d.table (previous d.capacity i)))
  unfolding close_hole
  close_hole-stop empty = ground arith

  close_hole-pass :
      (d.table (previous d.capacity i)).v ≢ 0
      → keeps_place
          (previous d.capacity i)
          (hash (d.table (previous d.capacity i)).s % d.capacity)
          j
        ≡ true
      → close_hole hash (suc fuel) d.capacity d.table j i
        ≡ close_hole hash fuel d.capacity d.table j (previous d.capacity i)
  unfolding close_hole
  close_hole-pass in_use keeps =
      let full : ((d.table (previous d.capacity i)).v == 0) ≡ false = ground arith in
      rw (full, keeps)

  close_hole-move :
      (d.table (previous d.capacity i)).v ≢ 0
      → keeps_place
          (previous d.capacity i)
          (hash (d.table (previous d.capacity i)).s % d.capacity)
          j
        ≡ false
      → close_hole hash (suc fuel) d.capacity d.table j i
        ≡ close_hole hash fuel d.capacity
            (move_entry d j (previous d.capacity i)).table
            (previous d.capacity i)
            (previous d.capacity i)
  unfolding close_hole
  close_hole-move in_use crossed =
      let full : ((d.table (previous d.capacity i)).v == 0) ≡ false = ground arith in
      rw (full, crossed)

still_empty :
    (d : Dictionary) (j k e : ℕ)
    → e ≢ k
    → e ≢ j
    → (d.table e).v ≡ 0
    → ((move_entry d j k).table e).v ≡ 0
still_empty d j k e off_k off_j empty = elim (move_entry-cases d j k e) [
  | inl (at_k, gone) ↦ gone
  | inr (inl (off, at_j, new)) ↦ absurd (off_j at_j)
  | inr (inr (off, off', old)) ↦ rw old empty
]

module _ (hash : ℕ → ℕ) (map : ℕ → ℕ) where
  abbrev pub Closes : ℕ → Dictionary → ℕ → ℕ → Type 0
  Closes fuel d j i =
      (t : ℕ → Association) × (close_hole hash fuel d.capacity d.table j i ≡ some t)
      × IsClosed hash (with_table d t)
      × Represents (with_table d t) map

  -- With an empty slot `e` further down than what is passed, the loop ends, and closes the hole.
  pub close_hole-IsClosed :
      (fuel : ℕ) (d : Dictionary) (j i e : ℕ)
      → IsHoled hash d j i
      → Represents d map
      → e < d.capacity
      → (d.table e).v ≡ 0
      → gap d.capacity j i < gap d.capacity j e
      → gap d.capacity j e ≤ gap d.capacity j i + fuel
      → Closes fuel d j i
  close_hole-IsClosed zero d j i e holed repr pe empty ahead enough = absurd (omega arith)
  close_hole-IsClosed (suc fuel) d j i e holed repr pe empty ahead enough =
      let c = d.capacity in
      let k = previous c i in
      let pk = previous_lt c i holed.here_in in
      let far = gap_lt c j e holed.hole_in pe in
      let near : gap c j i + 1 < c = omega (arith, far, ahead) in
      let step = gap-previous c j i holed.hole_in holed.here_in near in
      elim (Bool-cases ((d.table k).v == 0)) [
        | inl stop ↦
            (let ended = ==→eq (d.table k).v 0 stop in
              (
                set_slot d.table j (d.table k),
                close_hole-stop hash fuel d j i ended,
                copy-IsClosed hash d j (d.table k) holed.hole_in holed.hole_empty ended (record {
                  reachable = stop-IsReachable hash d j i holed near ended;
                  distinct = holed.distinct;
                  counted = holed.counted;
                }),
                copy-Represents hash d map j (d.table k) holed.hole_empty ended repr,
              ))
        | inr go ↦
            (let in_use : (d.table k).v ≢ 0 = ground arith in
              let apart : gap c j k ≢ gap c j e =
                λ same. in_use (rw (gap_injective c j k e holed.hole_in pk pe same) empty) in
              elim (Bool-cases (keeps_place k (hash (d.table k).s % c) j)) [
                | inl keeps ↦ rw (close_hole-pass hash fuel d j i in_use keeps) (
                    close_hole-IsClosed fuel d j k e
                      (pass-IsHoled hash d j i holed near in_use keeps) repr pe empty
                      (omega (arith, step, apart)) (omega (arith, step, enough)))
                | inr crossed ↦
                    (let next = move_entry d j k in
                      let off_j : e ≢ j = λ same.
                        (let reached : gap c j e ≡ 0 = rw same (gap_self c j) in
                          omega (arith, ahead, reached)) in
                      let self = gap_self c k in
                      let split =
                        gap-split c j k e holed.hole_in pk pe (omega (arith, step, ahead)) in
                      let moved =
                        close_hole-IsClosed fuel next k k e
                          (move-IsHoled hash d j k pk in_use holed.hole_empty holed.hole_in
                            holed.reachable holed.distinct holed.counted crossed)
                          (move_entry-Represents d j k map holed.hole_in pk holed.hole_empty in_use
                            repr)
                          pe
                          (still_empty d j k e (λ same. in_use (rw (sym same) empty)) off_j empty)
                          (omega (arith, self, split, step, ahead, apart))
                          (omega (arith, self, split, step, enough)) in
                      rw (close_hole-move hash fuel d j i in_use crossed) moved)
              ])
      ]
