-- ===== src/Diversion/Traps/Plant.antt =====
-- Planting a trap, and removing the one at a position.
use groff.Prelude.{
  ℕ, ◌≡◌, refl, sym, ap, inl, inr, true, false, not, ◌&&◌, Option, none, some, List, [], ◌∷◌, arith,
  if◌then◌else◌, Bool-cases, Option-cases, ℤ, eq_ℤ,
}
use groff.Diversion.Traps.{Trap, is_free, rename_at, fill_slot, add_trap, free, remove_trap_at}

-- The name of the first trap in use at a position.
abbrev pub trap_at : ℤ → List Trap → Option ℕ
trap_at q [] = none
trap_at q (t ∷ ts) = if not (is_free t) && eq_ℤ t.position q then t.nm else trap_at q ts

-- The first slot at a position, in use or free.
abbrev pub slot_at : ℤ → List Trap → Option Trap
slot_at q [] = none
slot_at q (t ∷ ts) = if eq_ℤ t.position q then some t else slot_at q ts

rename_at-trap_at :
    (nam : ℕ) (p q : ℤ) (ts us : List Trap)
    → rename_at nam p ts ≡ some us
    → trap_at q us ≡ (if eq_ℤ q p then some nam else trap_at q ts)
unfolding rename_at
rename_at-trap_at nam p q [] us h = absurd (ground arith)
rename_at-trap_at nam p q (t ∷ ts) us h = elim (Bool-cases (not (is_free t) && eq_ℤ t.position p)) [
  | inl here ↦ ground arith
  | inr there ↦ elim (Option-cases (rename_at nam p ts)) [
    | inl stuck ↦ absurd (ground arith)
    | inr (vs, e) ↦ ground (arith, rename_at-trap_at nam p q ts vs e)
  ]
]

fill_slot-trap_at :
    (nam : ℕ) (p q : ℤ) (ts : List Trap)
    → rename_at nam p ts ≡ none
    → trap_at q (fill_slot nam p ts) ≡ (if eq_ℤ q p then some nam else trap_at q ts)
unfolding rename_at fill_slot
fill_slot-trap_at nam p q [] h = ground arith
fill_slot-trap_at nam p q (t ∷ ts) h = elim (Option-cases (rename_at nam p ts)) [
  | inl e ↦ ground (arith, fill_slot-trap_at nam p q ts e)
  | inr (vs, e) ↦ absurd (ground arith)
]

-- Planting a trap changes the trap seen at its position to the new one and that at no other, whether it
-- takes over a trap, fills a free slot or is put at the end.
pub trap_at-add_trap :
    (nam : ℕ) (p q : ℤ) (ts : List Trap)
    → trap_at q (add_trap nam p ts) ≡ (if eq_ℤ q p then some nam else trap_at q ts)
unfolding add_trap
trap_at-add_trap nam p q ts = elim (Option-cases (rename_at nam p ts)) [
  | inl e ↦ rw e (fill_slot-trap_at nam p q ts e)
  | inr (us, e) ↦ rw e (rename_at-trap_at nam p q ts us e)
]

free-free : (t : Trap) → is_free t ≡ true → free t ≡ t
free-free t h = elim (Option-cases t.nm) [
  | inl e ↦ ap (λ m. record { position = t.position; nm = m }) (sym e)
  | inr (m, e) ↦ absurd (ground (arith, e))
]

-- Removing the trap at a position does nothing where the first slot there is free, so that a trap in use
-- behind it is still seen.
pub remove_trap_at-hidden :
    (p : ℤ) (ts : List Trap) (t : Trap)
    → slot_at p ts ≡ some t
    → is_free t ≡ true
    → remove_trap_at p ts ≡ ts
unfolding remove_trap_at
remove_trap_at-hidden p [] t h e = refl
remove_trap_at-hidden p (u ∷ ts) t h e = elim (Bool-cases (eq_ℤ u.position p)) [
  | inl here ↦ rw here (ap (λ v. v ∷ ts) (free-free u (ground (arith, e))))
  | inr there ↦ rw there (ap (λ us. u ∷ us) (remove_trap_at-hidden p ts t (ground arith) e))
]

-- Removing the trap at a position changes nothing at any other position.
pub trap_at-remove_trap_at :
    (p q : ℤ) (ts : List Trap) → eq_ℤ q p ≡ false → trap_at q (remove_trap_at p ts) ≡ trap_at q ts
unfolding remove_trap_at
trap_at-remove_trap_at p q [] ne = refl
trap_at-remove_trap_at p q (u ∷ ts) ne = ground (arith, trap_at-remove_trap_at p q ts)
