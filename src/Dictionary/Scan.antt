-- ===== src/Dictionary/Scan.antt =====
-- What the first slots of a table hold of each symbol: what has been put in the new table so far, while a
-- dictionary grows.
use groff.Prelude.{
  ℕ, zero, suc, ◌≤◌, ◌<◌, ◌≡◌, ◌≢◌, ◌⊎◌, refl, sym, ap, ◌∙◌, inl, inr, not, ◌&&◌, arith, ◌==◌,
  if◌then◌else◌, Bool-cases, ==→eq,
}
use groff.Dictionary.{Association, Dictionary}
use groff.Dictionary.Valid.{IsDistinct, Represents, used}

abbrev pub scan : (ℕ → Association) → ℕ → ℕ → ℕ
scan table zero q = 0
scan table (suc n) q =
    if not ((table n).v == 0) && q == (table n).s then (table n).v else scan table n q

-- The first slots that were scanned either hold the symbol nowhere, or in a slot that holds what is found.
scan-cases :
    (table : ℕ → Association) (n q : ℕ)
    → ((scan table n q ≡ 0) × ((k : ℕ) → k < n → (table k).v ≢ 0 → (table k).s ≢ q))
      ⊎ ((k : ℕ) × (k < n) × ((table k).s ≡ q) × ((table k).v ≢ 0) × (scan table n q ≡ (table k).v))
scan-cases table zero q = inl (refl, λ k p full e. absurd (omega arith))
scan-cases table (suc n) q = elim (Bool-cases (not ((table n).v == 0) && q == (table n).s)) [
  | inl here ↦ inr (n, omega arith, ground arith, ground arith, rw here)
  | inr passed ↦ elim (scan-cases table n q) [
    | inl (e, absent) ↦ inl (
      rw passed e,
      λ k p full same. elim (Bool-cases (k == n)) [
        | inl top ↦
            (let k_top = ==→eq k n top in
              let full_n : (table n).v ≢ 0 = rw (sym k_top) full in
              let same_n : (table n).s ≡ q = rw (sym k_top) same in ground arith)
        | inr below ↦ absent k (ground arith) full same
      ],
    )
    | inr (k, p, same, full, e) ↦ inr (k, omega arith, same, full, rw passed e)
  ]
]

-- A slot further on is no second one of a symbol.
pub scan-next :
    (table : ℕ → Association) (c n : ℕ)
    → IsDistinct c table
    → n < c
    → (table n).v ≢ 0
    → scan table n (table n).s ≡ 0
scan-next table c n distinct p full = elim (scan-cases table n (table n).s) [
  | inl (e, absent) ↦ e
  | inr (k, less, same, full_k, e) ↦
      (let same_slot = distinct k n (omega arith) p full_k full same in absurd (omega arith))
]

-- All slots together hold the map.
pub scan-Represents :
    (d : Dictionary) (map : ℕ → ℕ) (q : ℕ) → Represents d map → scan d.table d.capacity q ≡ map q
scan-Represents d map q repr = elim (scan-cases d.table d.capacity q) [
  | inl (e, absent) ↦ elim (Bool-cases (map q == 0)) [
    | inl unknown ↦ ground arith
    | inr known ↦
        (let there = repr.covers q (ground arith) in
          absurd (absent there.0 there.1 there.3 there.2))
  ]
  | inr (k, p, same, full, e) ↦ e ∙ (sym (repr.holds k p full) ∙ ap map same)
]

pub used_le : (table : ℕ → Association) (n c : ℕ) → n ≤ c → used table n ≤ used table c
used_le table n zero p = let e : n ≡ 0 = omega arith in rw e (omega arith)
used_le table n (suc c) p = elim (Bool-cases (n == suc c)) [
  | inl same ↦ rw (==→eq n (suc c) same) (omega arith)
  | inr other ↦ ground (arith, used_le table n c)
]
