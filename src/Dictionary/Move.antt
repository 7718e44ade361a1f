-- ===== src/Dictionary/Move.antt =====
-- One entry moved into the hole, which leaves a hole where it was.
use groff.Prelude.{ℕ, ◌%◌, ◌<◌, ◌≡◌, ◌≢◌, ◌⊎◌, refl, sym, ◌∙◌, inl, inr, arith}
use groff.Dictionary.{Association, Dictionary, set_slot}
use groff.Dictionary.Gap.{gap}
use groff.Dictionary.Valid.{
  IsReachable, IsDistinct, Represents, used, used-set_slot, set_slot-cases,
}
use groff.Dictionary.Hole.{with_table}

abbrev pub move_entry : Dictionary → ℕ → ℕ → Dictionary
move_entry d j k =
    with_table d (set_slot (set_slot d.table j (d.table k)) k (record { s = (d.table k).s; v = 0 }))

module _ (d : Dictionary) (j k : ℕ) where
  abbrev moved_to : ℕ → Association
  moved_to = (move_entry d j k).table

  pub move_entry-cases :
      (x : ℕ)
      → ((x ≡ k) × ((moved_to x).v ≡ 0))
        ⊎ ((x ≢ k) × (x ≡ j) × (moved_to x ≡ d.table k))
        ⊎ ((x ≢ k) × (x ≢ j) × (moved_to x ≡ d.table x))
  move_entry-cases x =
      elim (set_slot-cases (set_slot d.table j (d.table k)) k (record { s = (d.table k).s; v = 0 })
        x) [
          | inl (same, new) ↦ inl (same, rw new refl)
          | inr (other, old) ↦ elim (set_slot-cases d.table j (d.table k) x) [
            | inl (same, new) ↦ inr (inl (other, same, old ∙ new))
            | inr (apart, kept) ↦ inr (inr (other, apart, old ∙ kept))
          ]
        ]

  pub move_entry-IsDistinct :
      k < d.capacity
      → (d.table k).v ≢ 0
      → IsDistinct d.capacity d.table
      → IsDistinct d.capacity moved_to
  move_entry-IsDistinct pk in_use distinct x y p q full full' same = elim (move_entry-cases x) [
    | inl (at_k, gone) ↦ absurd (full gone)
    | inr (inl (off_k, at_j, new)) ↦ elim (move_entry-cases y) [
      | inl (at_k', gone) ↦ absurd (full' gone)
      | inr (inl (off_k', at_j', new')) ↦ omega (arith, at_j, at_j')
      | inr (inr (off_k', off_j', old')) ↦
          absurd
            (off_k' (sym (distinct k y pk q in_use (rw old' at full') (rw (new, old') at same))))
    ]
    | inr (inr (off_k, off_j, old)) ↦ elim (move_entry-cases y) [
      | inl (at_k', gone) ↦ absurd (full' gone)
      | inr (inl (off_k', at_j', new')) ↦
          absurd (off_k (distinct x k p pk (rw old at full) in_use (rw (old, new') at same)))
      | inr (inr (off_k', off_j', old')) ↦
          distinct x y p q (rw old at full) (rw old' at full') (rw (old, old') at same)
    ]
  ]

  pub move_entry-used :
      j < d.capacity
      → k < d.capacity
      → (d.table j).v ≡ 0
      → (d.table k).v ≢ 0
      → used moved_to d.capacity ≡ used d.table d.capacity
  move_entry-used pj pk hole in_use =
      let fill = used-set_slot d.table d.capacity j (d.table k) pj in
      let clear =
        used-set_slot (set_slot d.table j (d.table k)) d.capacity k
          (record { s = (d.table k).s; v = 0 }) pk in
      elim (set_slot-cases d.table j (d.table k) k) [
        | inl (same, new) ↦ absurd (in_use (rw same hole))
        | inr (other, old) ↦ (let clear' = rw old at clear in ground (arith, fill, clear'))
      ]

  pub move_entry-Represents :
      (map : ℕ → ℕ)
      → j < d.capacity
      → k < d.capacity
      → (d.table j).v ≡ 0
      → (d.table k).v ≢ 0
      → Represents d map
      → Represents (move_entry d j k) map
  move_entry-Represents map pj pk hole in_use repr = record {
    holds = λ x p full. elim (move_entry-cases x) [
      | inl (at_k, gone) ↦ absurd (full gone)
      | inr (inl (off_k, at_j, new)) ↦ rw new (repr.holds k pk in_use)
      | inr (inr (off_k, off_j, old)) ↦ rw old (repr.holds x p (rw old at full))
    ];
    covers = λ s known.
        let there = repr.covers s known in
        elim (move_entry-cases there.0) [
          | inl (at_k, gone) ↦ elim (move_entry-cases j) [
            | inl (same, gone') ↦ absurd (in_use (rw (sym same) hole))
            | inr (inl (off_k', at_j, new)) ↦ (j, pj, rw new (rw (sym at_k) there.2), rw new in_use)
            | inr (inr (off_k', off_j, old)) ↦ absurd (off_j refl)
          ]
          | inr (inl (off_k, at_j, new)) ↦ absurd (there.3 (rw at_j hole))
          | inr (inr (off_k, off_j, old)) ↦ (there.0, there.1, rw old there.2, rw old there.3)
        ];
  }

  pub move_entry-IsReachable :
      (hash : ℕ → ℕ)
      → k < d.capacity
      → (d.table k).v ≢ 0
      → (d.table j).v ≡ 0
      → IsReachable hash d.capacity j d.table
      → gap d.capacity (hash (d.table k).s % d.capacity) j
        < gap d.capacity (hash (d.table k).s % d.capacity) k
      → IsReachable hash d.capacity k moved_to
  move_entry-IsReachable hash pk in_use hole reachable crossed x y p q full ne close =
      elim (move_entry-cases y) [
        | inl (at_k, gone) ↦ absurd (ne at_k)
        | inr (inl (off_k, at_j, new)) ↦ rw new in_use
        | inr (inr (off_k, off_j, old)) ↦ rw old (elim (move_entry-cases x) [
          | inl (at_k', gone') ↦ absurd (full gone')
          | inr (inl (off_k', at_j', new')) ↦
              (let close_j = rw (new', at_j') at close in
                reachable k y pk q in_use off_j (omega (arith, close_j, crossed)))
          | inr (inr (off_k', off_j', old')) ↦
              reachable x y p q (rw old' at full) off_j (rw old' at close)
        ])
      ]
