-- ===== src/Dictionary/Objects/Counts.antt =====
-- How many names are bound to an object, and the reference counts that go with it.
use groff.Prelude.{
  ℕ, zero, suc, ◌+◌, ◌≤◌, ◌<◌, ◌≡◌, ◌≢◌, refl, sym, inl, inr, true, false, arith, ◌==◌,
  if◌then◌else◌, Bool-cases, ==→eq,
}
use groff.Dictionary.Valid.{update}
use groff.Dictionary.Objects.{Heap}

-- The names are below a bound.
abbrev pub count_names : ℕ → (ℕ → ℕ) → ℕ → ℕ
count_names zero map o = 0
count_names (suc n) map o = (if map n == o then 1 else 0) + count_names n map o

count_names-update_above :
    (n s v : ℕ) (map : ℕ → ℕ) (o : ℕ)
    → n ≤ s
    → count_names n (update map s v) o ≡ count_names n map o
count_names-update_above zero s v map o h = refl
count_names-update_above (suc n) s v map o h = ground (arith, count_names-update_above n s v map o)

-- A name that is bound anew counts for the new object and no longer for the old one.
pub count_names-update :
    (n s v : ℕ) (map : ℕ → ℕ) (o : ℕ)
    → s < n
    → count_names n (update map s v) o + (if map s == o then 1 else 0)
      ≡ count_names n map o + (if v == o then 1 else 0)
count_names-update zero s v map o h = absurd (omega arith)
count_names-update (suc n) s v map o h = elim (Bool-cases (n == s)) [
  | inl top ↦
      (let same = ==→eq n s top in
        rw (sym same) (ground (arith, count_names-update_above n n v map o)))
  | inr inner ↦ ground (arith, count_names-update n s v map o)
]

pub count_names-bound : (n s : ℕ) (map : ℕ → ℕ) → s < n → 1 ≤ count_names n map (map s)
count_names-bound n s map h = ground (arith, count_names-update n s (map s + 1) map (map s) h)

-- Every reference count is the number of names that the object has here, and of what else refers to it.
-- A deleted object has none of either.
pub record IsCounted (bound : ℕ) (elsewhere map : ℕ → ℕ) (h : Heap) : Type 0 where
  pub bounded : (s : ℕ) → map s ≢ 0 → s < bound
  pub counts : (o : ℕ) → o ≢ 0 → h.refcount o ≡ count_names bound map o + elsewhere o
  pub gone : (o : ℕ) → h.deleted o ≡ true → h.refcount o ≡ 0

-- So a name is bound to no deleted object.
pub IsCounted-live :
    (bound : ℕ) (elsewhere map : ℕ → ℕ) (h : Heap) (s : ℕ)
    → IsCounted bound elsewhere map h
    → map s ≢ 0
    → (h.deleted (map s) ≡ false) × (1 ≤ h.refcount (map s))
IsCounted-live bound elsewhere map h s counted known =
    let names = count_names-bound bound s map (counted.bounded s known) in
    let count = counted.counts (map s) known in
    elim (Bool-cases (h.deleted (map s))) [
      | inl dead ↦ absurd (omega (arith, names, count, counted.gone (map s) dead))
      | inr live ↦ (live, omega (arith, names, count))
    ]
