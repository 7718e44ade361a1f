-- ===== src/Strings/Operations.antt =====
-- The operations of `string` on the bytes that it stands for.
use groff.Prelude.{
  ℕ, ◌+◌, ◌-◌, ◌*◌, ◌<◌, ◌≡◌, ◌≢◌, refl, inl, inr, true, false, Option, some, List, [], ◌∷◌, ◌++◌,
  append-nil, arith, ltb, leb, ◌==◌, Bool-cases, length, take, replicate, length-take,
}
use native.Mathlib.Nat.{zero-add}
use groff.Strings.{
  GroffString, salloc, srealloc, sfree_and_alloc, store, amount_for, bytes, from_bytes, assign,
  concat, concat_string, append, add_char, clear,
}
use groff.Strings.Buffer.{
  Holds, Holds-length, copy_to-front, clear-nulls, store-Holds, srealloc-grown, take-length-append,
}

-- An operation ends, and the string stands for these bytes.
abbrev pub Gives : Option GroffString → List ℕ → Type 0
Gives result bs = (s : GroffString) × (result ≡ some s) × Holds s bs

-- A string is its fields: its buffer in terms of its bytes.
store-kept :
    (s : GroffString) (bs p : List ℕ)
    → Holds s bs
    → s.len + length p < s.sz
    → Gives (store (s.ptr, s.sz) s.len p) (bs ++ p)
store-kept s bs p held less =
    rw (held.content, held.measured) (store-Holds bs p s.sz (omega (arith, held.measured, less)))

store-grown :
    (s : GroffString) (bs p : List ℕ)
    → Holds s bs
    → s.sz < s.len + length p + 1
    → 0 < length p
    → Gives (store (srealloc s.ptr s.sz s.len (s.len + length p)) s.len p) (bs ++ p)
store-grown s bs p held small some_bytes =
    let newlen = length bs + length p in
    let grown =
      srealloc-grown bs s.sz newlen (s.sz - length bs) (omega (arith, held.measured, small))
        (omega arith) in
    rw (held.content, held.measured, grown) (store-Holds bs p (newlen * 2) (omega arith))

-- `operator+=` with a C string puts its bytes behind those of the string, in a larger buffer where they do
-- not fit with a null.
pub concat-Holds : (s : GroffString) (bs p : List ℕ) → Holds s bs → Gives (concat s p) (bs ++ p)
unfolding concat
concat-Holds s bs p held = elim (Bool-cases (ltb s.sz (s.len + length p + 1))) [
  | inl small ↦ rw small (store-grown s bs p held (ground arith) (ground (arith, held.terminated)))
  | inr large ↦ rw large (store-kept s bs p held (ground arith))
]

length_zero : (p : List ℕ) → length p ≡ 0 → p ≡ []
length_zero [] e = refl
length_zero (c ∷ p) e = absurd (omega arith)

-- So does that with a string.
pub concat_string-Holds :
    (s t : GroffString) (bs p : List ℕ)
    → Holds s bs
    → Holds t p
    → Gives (concat_string s t) (bs ++ p)
unfolding concat_string
concat_string-Holds s t bs p held held' =
    let content : bytes t ≡ p =
      rw (held'.content, held'.measured) (take-length-append p (replicate (t.sz - length p) 0)) in
    elim (Bool-cases (t.len == 0)) [
      | inl empty ↦
          (let nothing = length_zero p (ground (arith, held'.measured)) in
            rw (empty, nothing, append-nil) ((s, refl, held)))
      | inr full ↦ rw (full, content) (concat-Holds s bs p held)
    ]

-- `append` does too, unless the bytes fill the buffer.
pub append-Holds :
    (s : GroffString) (bs p : List ℕ)
    → Holds s bs
    → s.len + length p ≢ s.sz
    → Gives (append s p) (bs ++ p)
unfolding append
append-Holds s bs [] held apart = (s, refl, rw append-nil held)
append-Holds s bs (c ∷ p) held apart =
    let some_bytes : ltb 0 (length (c ∷ p)) ≡ true = ground arith in
    elim (Bool-cases (ltb s.sz (s.len + length (c ∷ p)))) [
      | inl small ↦
          rw (some_bytes, small) (store-grown s bs (c ∷ p) held (ground arith) (omega arith))
      | inr large ↦ rw (some_bytes, large) (store-kept s bs (c ∷ p) held (ground arith))
    ]

-- And a character, unless it takes the place of the last null.
pub add_char-Holds :
    (s : GroffString) (bs : List ℕ) (c : ℕ)
    → Holds s bs
    → s.len + 1 ≢ s.sz
    → Gives (add_char s c) (bs ++ (c ∷ []))
unfolding add_char
add_char-Holds s bs c held apart =
    let room : leb s.sz s.len ≡ false = ground (arith, held.terminated) in
    rw room (store-kept s bs (c ∷ []) held (omega (arith, held.terminated)))

zeros-Holds : (p : List ℕ) (sz : ℕ) → length p < sz → Gives (store (replicate sz 0, sz) 0 p) p
zeros-Holds p sz less =
    let whole : sz - 0 ≡ sz = omega arith in rw whole at (store-Holds [] p sz (omega arith))

pub from_bytes-Holds : (p : List ℕ) → Gives (from_bytes p) p
unfolding from_bytes salloc
from_bytes-Holds p = zeros-Holds p (amount_for (length p)) (ground arith)

-- `operator=` keeps a buffer that is large enough, and nulls what is behind the new bytes.
pub assign-Holds : (s : GroffString) (bs p : List ℕ) → Holds s bs → Gives (assign s p) p
unfolding assign sfree_and_alloc
assign-Holds s bs p held = elim (Bool-cases (leb (length p + 1) s.sz)) [
  | inl large ↦
      (let size = Holds-length s bs held in
        let prefix = length-take (length p) s.ptr in
        let put =
          copy_to-front (take (length p) s.ptr) (replicate (s.sz - length p) 0) p
            (ground (arith, size, prefix)) in
        (
          record { ptr = p ++ replicate (s.sz - length p) 0; len = 0 + length p; sz = s.sz },
          rw (large, put),
          record {
            content = rw zero-add refl;
            measured = zero-add (length p);
            terminated = ground arith;
          },
        ))
  | inr small ↦ rw small (zeros-Holds p (amount_for (length p)) (ground arith))
]

pub clear-Holds : (s : GroffString) (bs : List ℕ) → Holds s bs → Holds (clear s) []
unfolding clear
clear-Holds s bs held =
    let inside : ltb s.len s.sz ≡ true = ground (arith, held.terminated) in
    let nulls = clear-nulls bs s.sz (omega (arith, held.measured, held.terminated)) in
    let all : s.sz - 0 ≡ s.sz = omega arith in
    record {
      content = rw (inside, held.content, held.measured, nulls, all);
      measured = refl;
      terminated = omega (arith, held.terminated);
    }
