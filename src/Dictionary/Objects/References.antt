-- ===== src/Dictionary/Objects/References.antt =====
-- What the steps of the object dictionary's operations do to the reference counts.
use groff.Prelude.{
  ℕ, ◌+◌, ◌-◌, ◌<◌, ◌≡◌, ◌≢◌, inl, inr, true, false, ◌&&◌, some, arith, ◌==◌, if◌then◌else◌,
  Bool-cases, ==→eq,
}
use groff.Dictionary.Valid.{update}
use groff.Dictionary.Objects.{Heap, add_reference, remove_reference}
use groff.Dictionary.Objects.Counts.{count_names-update, IsCounted}

-- One more reference, which no name stands for.
abbrev pub plus : (ℕ → ℕ) → ℕ → ℕ → ℕ
plus elsewhere o q = elsewhere q + (if o == q then 1 else 0)

module _ (bound : ℕ) (elsewhere map : ℕ → ℕ) (h : Heap) where
  pub add_reference-IsCounted :
      (o : ℕ)
      → IsCounted bound elsewhere map h
      → h.deleted o ≡ false
      → (g : Heap) × (add_reference o h ≡ some g) × IsCounted bound (plus elsewhere o) map g
  unfolding add_reference
  add_reference-IsCounted o counted live = (
    record { refcount = update h.refcount o (h.refcount o + 1); deleted = h.deleted },
    rw live,
    record {
      bounded = counted.bounded;
      counts = λ q some_q. ground (arith, counted.counts q some_q);
      gone = λ q dead. elim (Bool-cases (q == o)) [
        | inl same ↦ (let here = rw (==→eq q o same) at dead in absurd (ground arith))
        | inr other ↦ ground (arith, counted.gone q dead)
      ];
    },
  )

  -- A reference in hand goes to the name, which gives up the one that it had.
  pub store-IsCounted :
      (s v : ℕ)
      → s < bound
      → IsCounted bound (plus elsewhere v) map h
      → IsCounted bound (plus elsewhere (map s)) (update map s v) h
  store-IsCounted s v within counted = record {
    bounded = λ q known. ground (arith, counted.bounded q, within);
    counts = λ o some_o.
        ground (arith, count_names-update bound s v map o within, counted.counts o some_o);
    gone = counted.gone;
  }

  -- A name that is removed gives up its reference.
  pub unbind-IsCounted :
      (s : ℕ)
      → s < bound
      → IsCounted bound elsewhere map h
      → IsCounted bound (plus elsewhere (map s)) (update map s 0) h
  unbind-IsCounted s within counted = record {
    bounded = λ q known. ground (arith, counted.bounded q, within);
    counts = λ o some_o.
        ground (arith, count_names-update bound s 0 map o within, counted.counts o some_o);
    gone = counted.gone;
  }

  -- A reference that is given up: the object is deleted with the last one.
  pub remove_reference-IsCounted :
      (o : ℕ)
      → o ≢ 0
      → IsCounted bound (plus elsewhere o) map h
      → (g : Heap) × (remove_reference o h ≡ some g)
        × IsCounted bound elsewhere map g
        × (g.deleted o ≡ (g.refcount o == 0))
  unfolding remove_reference
  remove_reference-IsCounted o some_o counted =
      let count = counted.counts o some_o in
      let live : h.deleted o ≡ false = elim (Bool-cases (h.deleted o)) [
        | inl dead ↦ absurd (ground (arith, counted.gone o dead))
        | inr alive ↦ alive
      ] in
      let positive : (h.refcount o == 0) ≡ false = ground arith in
      (
        record {
          refcount = update h.refcount o (h.refcount o - 1);
          deleted = λ q. if q == o && h.refcount o == 1 then true else h.deleted q;
        },
        rw (live, positive),
        record {
          bounded = counted.bounded;
          counts = λ q some_q. ground (arith, counted.counts q some_q, count);
          gone = λ q dead. elim (Bool-cases (q == o)) [
            | inl same ↦ (let here = rw (==→eq q o same) at dead in ground (arith, here, live))
            | inr other ↦ ground (arith, counted.gone q)
          ];
        },
        ground (arith, live, positive),
      )
