-- ===== src/Dictionary/Objects/Laws.antt =====
-- The operations of `object_dictionary` keep the reference counts, over any dictionary that keeps its
-- promises.
use groff.Prelude.{
  ℕ, ◌<◌, ◌≡◌, ◌≢◌, refl, inl, inr, false, not, Option, some, arith, ◌==◌, if◌then◌else◌,
  Bool-cases, ==→eq,
}
use groff.Dictionary.Valid.{update}
use groff.Dictionary.Objects.{
  Heap, DictionaryOps, ObjectDictionary, release, define, rename, remove_object, alias,
}
use groff.Dictionary.Objects.Counts.{IsCounted, IsCounted-live}
use groff.Dictionary.Objects.References.{
  plus, add_reference-IsCounted, store-IsCounted, unbind-IsCounted, remove_reference-IsCounted,
}

-- What `rename` makes of a map: a name that is not bound is no name to rename.
abbrev pub renamed : (ℕ → ℕ) → ℕ → ℕ → ℕ → ℕ
renamed map oldnm newnm =
    if map oldnm == 0 then update map oldnm 0 else update (update map oldnm 0) newnm (map oldnm)

module _ {D : Type 0} (ops : DictionaryOps D) (bound : ℕ) (elsewhere : ℕ → ℕ) where
  -- The dictionary stands for the map, and the objects' counts go with it.
  pub record IsBound (map : ℕ → ℕ) (od : ObjectDictionary D) : Type 0 where
    pub stands : ops.StandsFor od.d map
    pub counted : IsCounted bound elsewhere map od.heap

  -- The null pointer is no object, and counts for nothing.
  plus-null :
      (map : ℕ → ℕ) (h : Heap)
      → IsCounted bound (plus elsewhere 0) map h
      → IsCounted bound elsewhere map h
  plus-null map h counted = record {
    bounded = counted.bounded;
    counts = λ o some_o. ground (arith, counted.counts o some_o);
    gone = counted.gone;
  }

  -- No reference in hand is lost, and a null pointer has none.
  release-IsBound :
      (map : ℕ → ℕ) (o : ℕ) (e : D) (h : Heap)
      → ops.StandsFor e map
      → IsCounted bound (plus elsewhere o) map h
      → (od : ObjectDictionary D) × (release ops (o, e) h ≡ some od)
        × IsBound map od
        × (o ≢ 0 → od.heap.deleted o ≡ (od.heap.refcount o == 0))
  unfolding release
  release-IsBound map o e h stands counted = elim (Bool-cases (o == 0)) [
    | inl null ↦ (
      record { d = e; heap = h },
      rw null,
      record { stands = stands; counted = plus-null map h (rw (==→eq o 0 null) at counted) },
      λ some_o. ground arith,
    )
    | inr given ↦
        (let dropped = remove_reference-IsCounted bound elsewhere map h o (ground arith) counted in
          (
            record { d = e; heap = dropped.0 },
            rw (given, dropped.1),
            record { stands = stands; counted = dropped.2 },
            λ some_o. dropped.3,
          ))
  ]

  -- An operation ends with a result that is bound to a map. The object `old` that it took a name from is
  -- deleted exactly when that was the last reference to it.
  abbrev pub Binds : Option (ObjectDictionary D) → (ℕ → ℕ) → ℕ → Type 0
  Binds result map old =
      (od : ObjectDictionary D) × (result ≡ some od)
      × IsBound map od
      × (old ≢ 0 → od.heap.deleted old ≡ (od.heap.refcount old == 0))

  -- Where the names are below the bound, the reference counts go with the map, there is room for one more
  -- entry, and the object is not deleted, `define` ends, reaches no deleted object, and binds the name to
  -- the object in the map, with the reference counts that go with that. The object that had the name before
  -- is deleted exactly when it has no reference left, also when it is the same one.
  pub define-IsBound :
      (nm obj : ℕ) (map : ℕ → ℕ) (od : ObjectDictionary D)
      → IsBound map od
      → ops.HasRoom od.d
      → nm < bound
      → obj ≢ 0
      → od.heap.deleted obj ≡ false
      → Binds (define ops nm obj od) (update map nm obj) (map nm)
  unfolding define
  define-IsBound nm obj map od bnd room within some_obj live =
      let added = add_reference-IsCounted bound elsewhere map od.heap obj bnd.counted live in
      let stored = ops.store_law nm obj od.d map bnd.stands room some_obj in
      let counted = store-IsCounted bound elsewhere map added.0 nm obj within added.2 in
      rw (added.1, stored.1)
        (release-IsBound (update map nm obj) (map nm) stored.0 added.0 stored.2 counted)

  -- `remove` takes the name from the map, with the reference counts that go with that, and the object that
  -- had it is deleted exactly when it has no reference left.
  pub remove_object-IsBound :
      (nm : ℕ) (map : ℕ → ℕ) (od : ObjectDictionary D)
      → IsBound map od
      → nm < bound
      → Binds (remove_object ops nm od) (update map nm 0) (map nm)
  unfolding remove_object
  remove_object-IsBound nm map od bnd within =
      let removed = ops.remove_law nm od.d map bnd.stands in
      let counted = unbind-IsCounted bound elsewhere map od.heap nm within bnd.counted in
      rw removed.1 (release-IsBound (update map nm 0) (map nm) removed.0 od.heap removed.2 counted)

  -- `rename` moves the object to the new name, also when that is the old one, with the reference counts
  -- that go with that, and the object that had the new name is deleted exactly when it has no reference
  -- left.
  pub rename-IsBound :
      (oldnm newnm : ℕ) (map : ℕ → ℕ) (od : ObjectDictionary D)
      → IsBound map od
      → ops.HasRoom od.d
      → oldnm < bound
      → newnm < bound
      → Binds
          (rename ops oldnm newnm od)
          (renamed map oldnm newnm)
          (if map oldnm == 0 then 0 else update map oldnm 0 newnm)
  unfolding rename
  rename-IsBound oldnm newnm map od bnd room within within' =
      let without = update map oldnm 0 in
      let removed = ops.remove_law oldnm od.d map bnd.stands in
      let counted = unbind-IsCounted bound elsewhere map od.heap oldnm within bnd.counted in
      elim (Bool-cases (map oldnm == 0)) [
        | inl unbound ↦
            (let clean = plus-null without od.heap (rw (==→eq (map oldnm) 0 unbound) at counted) in
              rw (removed.1, unbound)
                ((
                  record { d = removed.0; heap = od.heap },
                  refl,
                  record { stands = removed.2; counted = clean },
                  λ some_o. absurd (some_o refl),
                )))
        | inr known ↦
            (let some_obj : map oldnm ≢ 0 = ground arith in
              let stored =
                ops.store_law newnm (map oldnm) removed.0 without removed.2 (removed.3 room)
                  some_obj in
              let placed =
                store-IsCounted bound elsewhere without od.heap newnm (map oldnm) within' counted in
              rw (removed.1, known, stored.1)
                (release-IsBound (update without newnm (map oldnm)) (without newnm) stored.0 od.heap
                  stored.2 placed))
      ]

  -- `alias` binds the new name to the object of the old one, which gains a reference, and reports that it
  -- did. Where the old name is not bound, it reports that and changes nothing.
  pub alias-IsBound :
      (newnm oldnm : ℕ) (map : ℕ → ℕ) (od : ObjectDictionary D)
      → IsBound map od
      → ops.HasRoom od.d
      → newnm < bound
      → (e : ObjectDictionary D) × (alias ops newnm oldnm od ≡ some (not (map oldnm == 0), e))
        × IsBound (if map oldnm == 0 then map else update map newnm (map oldnm)) e
  unfolding alias
  alias-IsBound newnm oldnm map od bnd room within =
      let found = ops.find_law oldnm od.d map bnd.stands in
      elim (Bool-cases (map oldnm == 0)) [
        | inl unbound ↦ rw (found, unbound) ((od, refl, bnd))
        | inr known ↦
            (let some_obj : map oldnm ≢ 0 = ground arith in
              let live = IsCounted-live bound elsewhere map od.heap oldnm bnd.counted some_obj in
              let added =
                add_reference-IsCounted bound elsewhere map od.heap (map oldnm) bnd.counted
                  live.0 in
              let stored = ops.store_law newnm (map oldnm) od.d map bnd.stands room some_obj in
              let placed =
                store-IsCounted bound elsewhere map added.0 newnm (map oldnm) within added.2 in
              let released =
                release-IsBound (update map newnm (map oldnm)) (map newnm) stored.0 added.0 stored.2
                  placed in
              rw (found, known, added.1, stored.1, released.1) ((released.0, refl, released.2)))
      ]
