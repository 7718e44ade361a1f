-- ===== src/Dictionary/Objects/Hashed.antt =====
-- The hash table keeps the promises that the object dictionary relies on.
use groff.Prelude.{ℕ, suc, ◌+◌, ◌≡◌, ◌≢◌, true, false, some, arith, ◌==◌}
use groff.Dictionary.{Dictionary, is_crowded, good_size_from, grown, lookup, remove}
use groff.Dictionary.Valid.{IsValid, Represents, Represents-ext, update}
use groff.Dictionary.Lookup.{looked_up, lookup-Represents, lookup-null}
use groff.Dictionary.Remove.{remove-Represents}
use groff.Dictionary.Objects.{DictionaryOps}

-- Where one more entry makes the table crowded, the search finds a size for a larger one.
abbrev pub TableHasRoom : ℕ → Dictionary → Type 0
TableHasRoom fuel d =
    is_crowded (d.occupancy + 1) d.capacity ≡ true
    → (size : ℕ) × (good_size_from fuel (grown d.capacity) ≡ some size)

module _ (hash : ℕ → ℕ) (fuel depth : ℕ) where
  pub hashed_store_law :
      (s v : ℕ) (d : Dictionary) (map : ℕ → ℕ)
      → IsValid hash d × Represents d map
      → TableHasRoom fuel d
      → v ≢ 0
      → (e : Dictionary) × (lookup hash fuel (suc (suc depth)) s v d ≡ some (map s, e))
        × (IsValid hash e × Represents e (update map s v))
  hashed_store_law s v d map stands room some_value =
      let stored = lookup-Represents hash fuel depth d s v map stands.0 stands.1 (λ h. room) in
      let given : (v == 0) ≡ false = ground arith in
      (
        stored.0,
        stored.1,
        (
          stored.2,
          Represents-ext stored.0 (looked_up map s v) (update map s v) (λ q. rw given) stored.3,
        ),
      )

  pub hashed_remove_law :
      (s : ℕ) (d : Dictionary) (map : ℕ → ℕ)
      → IsValid hash d × Represents d map
      → (e : Dictionary) × (remove hash s d ≡ some (map s, e))
        × (IsValid hash e × Represents e (update map s 0))
        × (TableHasRoom fuel d → TableHasRoom fuel e)
  hashed_remove_law s d map stands =
      let removed = remove-Represents hash s d map stands.0 stands.1 in
      (
        removed.0,
        removed.1,
        (removed.2, removed.3),
        λ room crowded. rw removed.4 (room (ground (arith, removed.4, removed.5))),
      )

  abbrev pub hashed_ops : DictionaryOps Dictionary
  hashed_ops = record {
    lookup = lookup hash fuel (suc (suc depth));
    remove = remove hash;
    StandsFor = λ d map. IsValid hash d × Represents d map;
    HasRoom = TableHasRoom fuel;
    find_law = λ s d map stands. lookup-null hash fuel (suc depth) d s map stands.0 stands.1;
    store_law = hashed_store_law;
    remove_law = hashed_remove_law;
  }
