-- ===== src/Dictionary/Valid.antt =====
-- When a hash table is well formed, and which map it stands for.
use groff.Prelude.{
  ℕ, zero, suc, ◌+◌, ◌*◌, ◌%◌, ◌≤◌, ◌<◌, ◌≡◌, ◌≢◌, ◌⊎◌, refl, sym, ◌∙◌, inl, inr, arith, ◌==◌,
  if◌then◌else◌, Bool-cases, ==→eq,
}
use native.Mathlib.Nat.{mod-lt}
use groff.Dictionary.{Association, Dictionary, set_slot, new_dictionary, home}
use groff.Dictionary.Gap.{gap}

-- A map with the value of one symbol changed.
abbrev pub update : (ℕ → ℕ) → ℕ → ℕ → ℕ → ℕ
update map s v q = if q == s then v else map q

-- How many of the first `n` slots are in use.
abbrev pub used : (ℕ → Association) → ℕ → ℕ
used table zero = 0
used table (suc n) = (if (table n).v == 0 then 0 else 1) + used table n

-- No symbol is in two slots.
abbrev pub IsDistinct : ℕ → (ℕ → Association) → Type 0
IsDistinct c table =
    (i j : ℕ)
    → i < c
    → j < c
    → (table i).v ≢ 0
    → (table j).v ≢ 0
    → (table i).s ≡ (table j).s
    → i ≡ j

-- The slots in use hold the pairs of a symbol and a value that the map has, and no other.
pub record Represents (d : Dictionary) (map : ℕ → ℕ) : Type 0 where
  pub holds : (i : ℕ) → i < d.capacity → (d.table i).v ≢ 0 → map (d.table i).s ≡ (d.table i).v
  pub covers :
      (s : ℕ) → map s ≢ 0 → (i : ℕ) × (i < d.capacity) × ((d.table i).s ≡ s) × ((d.table i).v ≢ 0)

pub Represents-ext :
    (d : Dictionary) (map other : ℕ → ℕ)
    → ((s : ℕ) → map s ≡ other s)
    → Represents d map
    → Represents d other
Represents-ext d map other same repr = record {
  holds = λ i p full. sym (same (d.table i).s) ∙ repr.holds i p full;
  covers = λ s known. repr.covers s (rw same known);
}

module _ (hash : ℕ → ℕ) where
  -- Every slot on the way from the home of an entry to it is in use, but for a hole.
  abbrev pub IsReachable : ℕ → ℕ → (ℕ → Association) → Type 0
  IsReachable c hole table =
      (i j : ℕ)
      → i < c
      → j < c
      → (table i).v ≢ 0
      → j ≢ hole
      → gap c (hash (table i).s % c) j < gap c (hash (table i).s % c) i
      → (table j).v ≢ 0

  -- A slot outside the table is no hole.
  pub record IsValid (d : Dictionary) : Type 0 where
    pub reachable : IsReachable d.capacity d.capacity d.table
    pub distinct : IsDistinct d.capacity d.table
    pub counted : d.occupancy ≡ used d.table d.capacity
    pub roomy : 2 * d.occupancy < d.capacity
    pub spare : d.occupancy + 1 < d.capacity

  pub home_lt : (d : Dictionary) (s : ℕ) → 0 < d.capacity → home hash d s < d.capacity
  home_lt d s h = mod-lt (hash s) (omega arith)

-- A table with fewer slots in use than it has slots has an empty one.
pub used-room :
    (table : ℕ → Association) (n : ℕ) → used table n < n → (e : ℕ) × (e < n) × ((table e).v ≡ 0)
used-room table zero h = absurd (omega arith)
used-room table (suc n) h = elim (Bool-cases ((table n).v == 0)) [
  | inl empty ↦ (n, omega arith, ==→eq (table n).v 0 empty)
  | inr full ↦ (let r = used-room table n (ground arith) in (r.0, omega (arith, r.1), r.2))
]

pub used-set_slot_above :
    (table : ℕ → Association) (n i : ℕ) (a : Association)
    → n ≤ i
    → used (set_slot table i a) n ≡ used table n
used-set_slot_above table zero i a h = refl
used-set_slot_above table (suc n) i a h = ground (arith, used-set_slot_above table n i a)

-- Filling an empty slot adds one, and emptying a slot in use takes one away.
pub used-set_slot :
    (table : ℕ → Association) (n i : ℕ) (a : Association)
    → i < n
    → used (set_slot table i a) n + (if (table i).v == 0 then 0 else 1)
      ≡ used table n + (if a.v == 0 then 0 else 1)
used-set_slot table zero i a h = absurd (omega arith)
used-set_slot table (suc n) i a h = elim (Bool-cases (n == i)) [
  | inl top ↦
      (let same = ==→eq n i top in
        let below = used-set_slot_above table n i a (omega (arith, same)) in
        rw (sym same) (ground (arith, below, same)))
  | inr inner ↦ ground (arith, used-set_slot table n i a)
]

used-empty : (n : ℕ) → used (λ i. record { s = 0; v = 0 }) n ≡ 0
used-empty zero = refl
used-empty (suc n) = omega (arith, used-empty n)

pub new_dictionary-IsValid : (hash : ℕ → ℕ) (n : ℕ) → 1 < n → IsValid hash (new_dictionary n)
new_dictionary-IsValid hash n h = record {
  reachable = λ i j p q full ne near. absurd (full refl);
  distinct = λ i j p q full full' same. absurd (full refl);
  counted = sym (used-empty n);
  roomy = omega arith;
  spare = omega arith;
}

pub set_slot-cases :
    (table : ℕ → Association) (r : ℕ) (a : Association) (i : ℕ)
    → ((i ≡ r) × (set_slot table r a i ≡ a)) ⊎ ((i ≢ r) × (set_slot table r a i ≡ table i))
set_slot-cases table r a i = elim (Bool-cases (i == r)) [
  | inl same ↦ inl (==→eq i r same, rw same)
  | inr other ↦ inr ((λ e. ground arith), rw other)
]

-- A new table is the empty map.
pub new_dictionary-Represents : (n : ℕ) → Represents (new_dictionary n) (λ s. 0)
new_dictionary-Represents n = record {
  holds = λ i p full. refl;
  covers = λ s known. absurd (known refl);
}
