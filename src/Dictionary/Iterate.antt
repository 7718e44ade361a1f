-- ===== src/Dictionary/Iterate.antt =====
-- A run of `dictionary_iterator` over a whole table.
use groff.Prelude.{
  ℕ, zero, suc, ◌+◌, ◌-◌, ◌≤◌, ◌<◌, ◌≡◌, ◌≢◌, ◌⊎◌, refl, sym, ap, ◌∙◌, inl, inr, Option, none, some,
  List, [], ◌∷◌, arith, ◌==◌, if◌then◌else◌, Bool-cases, ==→eq, length,
}
use groff.Dictionary.{Dictionary, next_entry, iterator_get}
use groff.Dictionary.Valid.{IsValid, IsDistinct, Represents, used}

-- Calls of `get` until it returns false, as its callers' loops make them.
abbrev pub after_get : Option (ℕ × ℕ × ℕ) → (ℕ → List (ℕ × ℕ)) → List (ℕ × ℕ)
after_get none rest = []
after_get (some (next, s, v)) rest = (s, v) ∷ rest next

unfoldable pub entries_from : ℕ → Dictionary → ℕ → List (ℕ × ℕ)
entries_from zero d i = []
entries_from (suc n) d i = after_get (iterator_get d i) (entries_from n d)

-- The value that a list of pairs has for a symbol, and 0 where it has none.
abbrev pub value_in : List (ℕ × ℕ) → ℕ → ℕ
value_in [] q = 0
value_in (p ∷ ps) q = if p.0 == q then p.1 else value_in ps q

-- The slots in use among `n` from `i` on.
abbrev slots : ℕ → Dictionary → ℕ → List (ℕ × ℕ)
slots zero d i = []
slots (suc n) d i =
    if (d.table i).v == 0
    then slots n d (suc i)
    else ((d.table i).s, (d.table i).v) ∷ slots n d (suc i)

-- What one call finds, and what it leaves.
next_entry-slots :
    (n i : ℕ) (d : Dictionary)
    → ((next_entry n d i ≡ none) × (slots n d i ≡ []))
      ⊎ ((next s v m : ℕ) × (next_entry n d i ≡ some (next, s, v))
          × (slots n d i ≡ (s, v) ∷ slots m d next)
          × (next + m ≡ i + n)
          × (m < n))
unfolding next_entry
next_entry-slots zero i d = inl (refl, refl)
next_entry-slots (suc n) i d = elim (Bool-cases ((d.table i).v == 0)) [
  | inl empty ↦ elim (next_entry-slots n (suc i) d) [
    | inl (e, f) ↦ inl (rw empty e, rw empty f)
    | inr (next, s, v, m, e, f, total, less) ↦
        inr (next, s, v, m, rw empty e, rw empty f, omega arith, omega arith)
  ]
  | inr full ↦
      inr (suc i, (d.table i).s, (d.table i).v, n, rw full, rw full, omega arith, omega arith)
]

iterator_get-next_entry :
    (n i : ℕ) (d : Dictionary) → i + n ≡ d.capacity → iterator_get d i ≡ next_entry n d i
unfolding iterator_get
iterator_get-next_entry n i d total = let left : d.capacity - i ≡ n = omega arith in rw left

entries_from-end :
    (fuel i : ℕ) (d : Dictionary) → iterator_get d i ≡ none → entries_from (suc fuel) d i ≡ []
unfolding entries_from
entries_from-end fuel i d e = rw e

entries_from-next :
    (fuel i next s v : ℕ) (d : Dictionary)
    → iterator_get d i ≡ some (next, s, v)
    → entries_from (suc fuel) d i ≡ (s, v) ∷ entries_from fuel d next
unfolding entries_from
entries_from-next fuel i next s v d e = rw e

entries_from-slots :
    (fuel n i : ℕ) (d : Dictionary)
    → i + n ≡ d.capacity
    → n < fuel
    → entries_from fuel d i ≡ slots n d i
entries_from-slots zero n i d total enough = absurd (omega arith)
entries_from-slots (suc fuel) n i d total enough =
    let get = iterator_get-next_entry n i d total in
    elim (next_entry-slots n i d) [
      | inl (e, f) ↦ entries_from-end fuel i d (get ∙ e) ∙ sym f
      | inr (next, s, v, m, e, f, total', less) ↦
          entries_from-next fuel i next s v d (get ∙ e)
          ∙ (ap (λ ps. (s, v) ∷ ps) (entries_from-slots fuel m next d (omega arith) (omega arith))
              ∙ sym f)
    ]

-- An entry per slot in use.
length-slots :
    (n i c : ℕ) (d : Dictionary)
    → i + n ≡ c
    → length (slots n d i) + used d.table i ≡ used d.table c
length-slots zero i c d total = let all : i ≡ c = omega arith in rw all (omega arith)
length-slots (suc n) i c d total = ground (arith, length-slots n (suc i) c d (omega (arith, total)))

-- A symbol that is in no slot, and one that is in one.
value_in-absent :
    (n i q : ℕ) (d : Dictionary)
    → ((k : ℕ) → i ≤ k → k < i + n → (d.table k).v ≢ 0 → (d.table k).s ≢ q)
    → value_in (slots n d i) q ≡ 0
value_in-absent zero i q d absent = refl
value_in-absent (suc n) i q d absent =
    let rest = value_in-absent n (suc i) q d (λ k p less. absent k (omega arith) (omega arith)) in
    elim (Bool-cases ((d.table i).v == 0)) [
      | inl empty ↦ rw empty rest
      | inr full ↦
          (let apart = absent i (omega arith) (omega arith) (ground arith) in
            ground (arith, rest, apart, full))
    ]

value_in-present :
    (n i k : ℕ) (d : Dictionary)
    → IsDistinct d.capacity d.table
    → i + n ≤ d.capacity
    → i ≤ k
    → k < i + n
    → (d.table k).v ≢ 0
    → value_in (slots n d i) (d.table k).s ≡ (d.table k).v
value_in-present zero i k d distinct total p less in_use = absurd (omega arith)
value_in-present (suc n) i k d distinct total p less in_use = elim (Bool-cases (i == k)) [
  | inl here ↦
      (let same = ==→eq i k here in rw (sym same) (ground (arith, rw (sym same) at in_use)))
  | inr later ↦
      (let rest =
          value_in-present n (suc i) k d distinct (omega arith) (ground arith) (omega arith)
            in_use in
        elim (Bool-cases ((d.table i).v == 0)) [
          | inl empty ↦ rw empty rest
          | inr full ↦
              (let apart : (d.table i).s ≢ (d.table k).s = λ e.
                  (let same = distinct i k (omega arith) (omega arith) (ground arith) in_use e in
                    ground arith) in
                ground (arith, rest, apart, full))
        ])
]

slots-Represents :
    (d : Dictionary) (map : ℕ → ℕ) (q : ℕ)
    → IsDistinct d.capacity d.table
    → Represents d map
    → value_in (slots d.capacity d 0) q ≡ map q
slots-Represents d map q distinct repr = elim (Bool-cases (map q == 0)) [
  | inl unknown ↦
      (let none_there : (k : ℕ)
            → 0 ≤ k
            → k < 0 + d.capacity
            → (d.table k).v ≢ 0
            → (d.table k).s ≢ q =
          λ k p less in_use e.
            (let value = repr.holds k (omega (arith, less)) in_use in
              let value' : map q ≡ (d.table k).v = rw (sym e) value in ground arith) in
        value_in-absent d.capacity 0 q d none_there ∙ sym (==→eq (map q) 0 unknown))
  | inr known ↦
      (let there = repr.covers q (ground arith) in
        let value =
          value_in-present d.capacity 0 there.0 d distinct (omega arith) (omega arith)
            (omega (arith, there.1)) there.3 in
        rw (sym there.2) (value ∙ sym (repr.holds there.0 there.1 there.3)))
]

-- In a valid table that stands for a map, the iterator ends within one call more than there are slots. It
-- delivers as many entries as are counted, and the entries have for each symbol the value that the map
-- has for it.
pub entries_from-Represents :
    (hash : ℕ → ℕ) (fuel : ℕ) (d : Dictionary) (map : ℕ → ℕ)
    → IsValid hash d
    → Represents d map
    → d.capacity < fuel
    → (length (entries_from fuel d 0) ≡ d.occupancy)
      × ((q : ℕ) → value_in (entries_from fuel d 0) q ≡ map q)
entries_from-Represents hash fuel d map valid repr enough =
    let all = entries_from-slots fuel d.capacity 0 d (omega arith) enough in
    (
      rw all (omega (arith, length-slots d.capacity 0 d.capacity d (omega arith), valid.counted)),
      λ q. rw all (slots-Represents d map q valid.distinct repr),
    )
