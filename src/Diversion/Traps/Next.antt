-- ===== src/Diversion/Traps/Next.antt =====
-- What `find_next_trap` finds.
use groff.Prelude.{
  ◌≡◌, ◌↔◌, ◌⊎◌, refl, sym, inl, inr, Bool, true, false, ◌&&◌, none, some, List, [], ◌∷◌, arith,
  if◌then◌else◌, Bool-cases, All, ℤ, pos, ◌+ℤ◌, ◌≤ℤ◌, ◌<ℤ◌, ltb_ℤ, leb_ℤ, neg,
}
use mathlib.Core.List.{Mem, mem-cons_self, mem-cons_of_mem}
use groff.Int32.{IsInt}
use groff.Units.{add_assign, plain}
use groff.Diversion.Traps.{
  Trap, is_free, Found, before, next_trap_step, next_trap_loop, find_next_trap,
}

-- Where a trap springs: a negative position counts from the bottom of the page.
abbrev pub place : ℤ → Trap → ℤ
place page_length t = if leb_ℤ (pos 0) t.position then t.position else t.position +ℤ page_length

-- A trap in use that springs on the page, below the present position. A position from the top lies
-- above the bottom, and one from the bottom lies below the top.
abbrev pub IsAhead : ℤ → ℤ → Trap → Type 0
IsAhead page_length v t =
    (is_free t ≡ false)
    × (v <ℤ place page_length t)
    × (((pos 0 ≤ℤ t.position) × (t.position <ℤ page_length))
        ⊎ ((t.position <ℤ pos 0) × (pos 0 <ℤ place page_length t)))

abbrev pub NotLater : Found → ℤ → Type 0
NotLater none p = ⊥
NotLater (some f) p = f.1 ≤ℤ p

module _ (page_length v : ℤ) where
  abbrev pub Ok : (Trap → Type 0) → Found → Type 0
  Ok P none = Unit
  Ok P (some (t, p)) = P t × IsAhead page_length v t × (p ≡ place page_length t)

  plain-IsInt : (z : ℤ) → IsInt z → plain z ≡ some z
  unfolding plain
  plain-IsInt z h = ground arith

  sum-IsInt :
      (t : Trap)
      → IsInt t.position
      → IsInt page_length
      → pos 0 ≤ℤ page_length
      → leb_ℤ (pos 0) t.position ≡ false
      → IsInt (t.position +ℤ page_length)
  unfolding ◌+ℤ◌
  sum-IsInt t h hl nonneg neg = ground arith

  ap-le : (q : ℤ) {p : ℤ} → q ≡ p → q ≤ℤ p
  ap-le q e = rw (sym e) (omega arith)

  -- What one round keeps and adds.
  abbrev Step : (Trap → Type 0) → Trap → Found → Found → Type 0
  Step P t found r =
      Ok P r
      × (IsAhead page_length v t → NotLater r (place page_length t))
      × ((p : ℤ) → NotLater found p → NotLater r p)

  skip_lem :
      (P : Trap → Type 0) (t : Trap) (found : Found)
      → Ok P found
      → (IsAhead page_length v t → NotLater found (place page_length t))
      → Step P t found found
  skip_lem P t found ok h = (ok, h, λ p h. h)

  not_before : (p : ℤ) (found : Found) → before p found ≡ false → NotLater found p
  not_before p none h = absurd (ground arith)
  not_before p (some f) h = ground arith

  take_lem :
      (P : Trap → Type 0) (t : Trap) (q : ℤ) (found : Found)
      → q ≡ place page_length t
      → P t
      → IsAhead page_length v t
      → before q found ≡ true
      → Step P t found (some (t, q))
  take_lem P t q none e member ahead h = ((member, ahead, e), λ _. ap-le q e, λ p n. absurd n)
  take_lem P t q (some f) e member ahead h =
      ((member, ahead, e), λ _. ap-le q e, λ p n. ground arith)

  choose_lem :
      (P : Trap → Type 0) (t : Trap) (q : ℤ) (found : Found) (b : Bool)
      → q ≡ place page_length t
      → P t
      → Ok P found
      → (b && before q found ≡ true → IsAhead page_length v t)
      → (IsAhead page_length v t → b ≡ true)
      → Step P t found (if b && before q found then some (t, q) else found)
  choose_lem P t q found b e member ok h1 h2 = elim (Bool-cases (b && before q found)) [
    | inl taken ↦ rw taken (take_lem P t q found e member (h1 taken) (ground arith))
    | inr left ↦
        rw left
          (skip_lem P t found ok (λ a. rw (sym e) (not_before q found (ground (arith, h2 a)))))
  ]

  IsAhead-top :
      (t : Trap)
      → is_free t ≡ false
      → leb_ℤ (pos 0) t.position ≡ true
      → ((ltb_ℤ v t.position && ltb_ℤ t.position page_length) ≡ true) ↔ IsAhead page_length v t
  IsAhead-top t used top = rw (used, top) (ground arith)

  IsAhead-bottom :
      (t : Trap)
      → is_free t ≡ false
      → leb_ℤ (pos 0) t.position ≡ false
      → ((ltb_ℤ (pos 0) (t.position +ℤ page_length) && ltb_ℤ v (t.position +ℤ page_length)) ≡ true)
        ↔ IsAhead page_length v t
  IsAhead-bottom t used bottom = rw (used, bottom) (ground arith)

  both : (a b : Bool) → a && b ≡ true → a ≡ true
  both a b h = ground arith

  step_lem :
      (P : Trap → Type 0) (t : Trap) (found : Found)
      → IsInt t.position
      → IsInt page_length
      → pos 0 ≤ℤ page_length
      → P t
      → Ok P found
      → (r : Found) × (next_trap_step page_length v t found ≡ some r) × Step P t found r
  unfolding next_trap_step add_assign
  step_lem P t found h hl nonneg member ok = elim (Bool-cases (is_free t)) [
    | inl free ↦ (found, rw free, skip_lem P t found ok (λ a. absurd (ground arith)))
    | inr used ↦ elim (Bool-cases (leb_ℤ (pos 0) t.position)) [
      | inl top ↦
          let b = ltb_ℤ v t.position && ltb_ℤ t.position page_length in
          let e : t.position ≡ place page_length t = rw top in
          (
            if b && before t.position found then some (t, t.position) else found,
            rw (used, top),
            choose_lem P t t.position found b e member ok
                (λ taken. (IsAhead-top t used top).0 (both b _ taken)) (IsAhead-top t used top).1,
          )
      | inr bottom ↦
          let q = t.position +ℤ page_length in
          let b = ltb_ℤ (pos 0) q && ltb_ℤ v q in
          let e : q ≡ place page_length t = rw bottom in
          (
            if b && before q found then some (t, q) else found,
            rw (used, bottom, plain-IsInt q (sum-IsInt t h hl nonneg bottom)),
            choose_lem P t q found b e member ok
                (λ taken. (IsAhead-bottom t used bottom).0 (both b _ taken))
                (IsAhead-bottom t used bottom).1,
          )
    ]
  ]

  loop_lem :
      (P : Trap → Type 0) (ts : List Trap) (found : Found)
      → All (λ t. IsInt t.position) ts
      → All P ts
      → IsInt page_length
      → pos 0 ≤ℤ page_length
      → Ok P found
      → (r : Found) × (next_trap_loop page_length v ts found ≡ some r)
        × Ok P r
        × All (λ t. IsAhead page_length v t → NotLater r (place page_length t)) ts
        × ((p : ℤ) → NotLater found p → NotLater r p)
  unfolding next_trap_loop
  loop_lem P [] found ints members hl nonneg ok = (found, refl, ok, tt, λ p h. h)
  loop_lem P (t ∷ ts) found (h, ints) (member, members) hl nonneg ok =
      let (r, runs, (ok1, here, keeps)) = step_lem P t found h hl nonneg member ok in
      let (r2, runs2, ok2, there, keeps2) = loop_lem P ts r ints members hl nonneg ok1 in
      (r2, rw (runs, runs2), ok2, (λ a. keeps2 _ (here a), there), λ p n. keeps2 p (keeps p n))

-- Every member of a list is one.
All-Mem : (ts us : List Trap) → ((t : Trap) → Mem t ts → Mem t us) → All (λ t. Mem t us) ts
All-Mem [] us h = tt
All-Mem (t ∷ ts) us h =
    (h t (mem-cons_self {a = t} {l = ts}), All-Mem ts us (λ u m. h u (mem-cons_of_mem t m)))

-- The search for the next trap ends without overflow. A trap that is found is in the list, is ahead and
-- springs no later than any other that is ahead; where none is found, none is ahead.
pub find_next_trap-first :
    (page_length v : ℤ) (ts : List Trap)
    → IsInt page_length
    → pos 0 ≤ℤ page_length
    → All (λ t. IsInt t.position) ts
    → (r : Found) × (find_next_trap page_length v ts ≡ some r)
      × Ok page_length v (λ t. Mem t ts) r
      × All (λ t. IsAhead page_length v t → NotLater r (place page_length t)) ts
unfolding find_next_trap
find_next_trap-first page_length v ts hl nonneg ints =
    let (r, runs, ok, first, keeps) =
      loop_lem page_length v (λ t. Mem t ts) ts none ints (All-Mem ts ts (λ t m. m)) hl nonneg tt in
    (r, runs, ok, first)
