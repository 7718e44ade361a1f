-- ===== src/Dictionary/Objects.antt =====
-- `object` and `object_dictionary` of dictionary.h and dictionary.cpp: a dictionary whose values are objects
-- that count the references to them, and are deleted with the last. An object is the number of its address.
pub mod Counts
pub mod References
pub mod Laws
pub mod Hashed
use groff.Prelude.{
  ℕ, zero, suc, ◌+◌, ◌-◌, ◌*◌, ◌/◌, ◌%◌, ◌^◌, ◌≤◌, ◌<◌, ◌≡◌, ◌≢◌, ◌↔◌, ◌⊎◌, refl, sym, ap, ◌∙◌, inl,
  inr, Bool, true, false, not, ◌&&◌, ◌||◌, Option, none, some, List, [], ◌∷◌, ◌++◌, append_assoc,
  append-nil, arith, ltb, leb, ◌==◌, if◌then◌else◌, Bool-cases, Option-cases, ==_iff, ==→eq, ltb→lt,
  leb→le, codes, length, get_elem?, get_or, take, drop, replicate, length-append, length-take,
  length-drop, length-replicate, take-append-drop, All, ℤ, pos, negsuc, pos_part, neg_part, ◌+ℤ◌,
  ◌-ℤ◌, ◌*ℤ◌, ◌≤ℤ◌, ◌<ℤ◌, ltb_ℤ, leb_ℤ, eq_ℤ, minus, neg, quot, rem, mag,
}
use groff.Prelude.Maybe.{◌>>=◌}
use groff.Dictionary.Valid.{update}

-- The reference counts of all objects, and which of them are deleted.
pub record Heap : Type 0 where
  pub refcount : ℕ → ℕ
  pub deleted : ℕ → Bool

-- To reach a deleted object is a fault, `none`.
unfoldable pub add_reference : ℕ → Heap → Option Heap
add_reference o h =
    if h.deleted o
    then none
    else some (record { refcount = update h.refcount o (h.refcount o + 1); deleted = h.deleted })

-- So is a count that would go below zero.
unfoldable pub remove_reference : ℕ → Heap → Option Heap
remove_reference o h =
    if h.deleted o || h.refcount o == 0
    then none
    else some (record {
      refcount = update h.refcount o (h.refcount o - 1);
      deleted = λ q. if q == o && h.refcount o == 1 then true else h.deleted q;
    })

-- What the object dictionary uses of a dictionary, and what that promises: it stands for a map.
pub record DictionaryOps (D : Type 0) : Type 1 where
  pub lookup : ℕ → ℕ → D → Option (ℕ × D)
  pub remove : ℕ → D → Option (ℕ × D)
  pub StandsFor : D → (ℕ → ℕ) → Type 0
  pub HasRoom : D → Type 0
  pub find_law : (s : ℕ) (d : D) (map : ℕ → ℕ) → StandsFor d map → lookup s 0 d ≡ some (map s, d)
  pub store_law :
      (s v : ℕ) (d : D) (map : ℕ → ℕ)
      → StandsFor d map
      → HasRoom d
      → v ≢ 0
      → (e : D) × (lookup s v d ≡ some (map s, e)) × StandsFor e (update map s v)
  pub remove_law :
      (s : ℕ) (d : D) (map : ℕ → ℕ)
      → StandsFor d map
      → (e : D) × (remove s d ≡ some (map s, e))
        × StandsFor e (update map s 0)
        × (HasRoom d → HasRoom e)

pub record ObjectDictionary (D : Type 0) : Type 0 where
  pub d : D
  pub heap : Heap

module _ {D : Type 0} (ops : DictionaryOps D) where
  -- An object that was replaced, if there is one, loses a reference.
  unfoldable pub release : ℕ × D → Heap → Option (ObjectDictionary D)
  release r h =
      if not (r.0 == 0)
      then (remove_reference r.0 h >>= λ g. some (record { d = r.1; heap = g }))
      else some (record { d = r.1; heap = h })

  unfoldable pub define : ℕ → ℕ → ObjectDictionary D → Option (ObjectDictionary D)
  define nm obj od = add_reference obj od.heap >>= λ h. ops.lookup nm obj od.d >>= λ r. release r h

  unfoldable pub rename : ℕ → ℕ → ObjectDictionary D → Option (ObjectDictionary D)
  rename oldnm newnm od = ops.remove oldnm od.d >>= λ r.
      if not (r.0 == 0)
      then (ops.lookup newnm r.0 r.1 >>= λ q. release q od.heap)
      else some (record { d = r.1; heap = od.heap })

  unfoldable pub remove_object : ℕ → ObjectDictionary D → Option (ObjectDictionary D)
  remove_object nm od = ops.remove nm od.d >>= λ r. release r od.heap

  -- The Boolean tells whether `oldnm` was defined.
  unfoldable pub alias : ℕ → ℕ → ObjectDictionary D → Option (Bool × ObjectDictionary D)
  alias newnm oldnm od = ops.lookup oldnm 0 od.d >>= λ r.
      if not (r.0 == 0)
      then (add_reference r.0 od.heap >>= λ h.
          ops.lookup newnm r.0 r.1 >>= λ q. release q h >>= λ e. some (true, e))
      else some (false, record { d = r.1; heap = od.heap })
