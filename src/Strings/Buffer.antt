-- ===== src/Strings/Buffer.antt =====
-- A string stands for its bytes, followed in the buffer by nulls, of which there is one at least.
use groff.Prelude.{
  ℕ, zero, suc, ◌+◌, ◌-◌, ◌*◌, ◌≤◌, ◌<◌, ◌≡◌, refl, sym, ap, true, false, some, List, [], ◌∷◌, ◌++◌,
  arith, leb, ◌==◌, length, take, drop, replicate, length-append, length-replicate,
}
use native.Mathlib.Nat.{zero-add, suc-add}
use groff.Strings.{GroffString, srealloc, copy_to, store}

pub record Holds (s : GroffString) (bs : List ℕ) : Type 0 where
  pub content : s.ptr ≡ bs ++ replicate (s.sz - s.len) 0
  pub measured : s.len ≡ length bs
  pub terminated : s.len < s.sz

pub take-length-append : (bs xs : List ℕ) → take (length bs) (bs ++ xs) ≡ bs
take-length-append [] xs = refl
take-length-append (a ∷ bs) xs = ap (λ l. a ∷ l) (take-length-append bs xs)

drop-append : (bs xs : List ℕ) (m : ℕ) → drop (length bs + m) (bs ++ xs) ≡ drop m xs
drop-append [] xs m = rw zero-add
drop-append (a ∷ bs) xs m = rw (suc-add) (drop-append bs xs m)

drop-replicate : (m k : ℕ) → drop m (replicate {A = ℕ} k 0) ≡ replicate (k - m) 0
drop-replicate zero k = let all : k ≡ k - 0 = omega arith in ap (λ n. replicate n 0) all
drop-replicate (suc m) zero =
    let nothing : 0 ≡ 0 - suc m = omega arith in ap (λ n. replicate n 0) nothing
drop-replicate (suc m) (suc k) =
    let fewer : suc k - suc m ≡ k - m = omega arith in rw fewer (drop-replicate m k)

-- Bytes that are put where the nulls begin leave fewer of them.
pub copy_to-end :
    (bs p : List ℕ) (k : ℕ)
    → length p ≤ k
    → copy_to (bs ++ replicate k 0) (length bs) p ≡ some (bs ++ p ++ replicate (k - length p) 0)
unfolding copy_to
copy_to-end bs p k le =
    let room : leb (length bs + length p) (length (bs ++ replicate k 0)) ≡ true =
      ground (arith, length-append bs (replicate k 0), length-replicate {A = ℕ} k 0) in
    rw (
      room,
      take-length-append bs (replicate k 0),
      drop-append bs (replicate k 0) (length p),
      drop-replicate (length p) k,
    )

-- Bytes that take the place of as many others at the beginning.
pub copy_to-front :
    (xs zs p : List ℕ) → length xs ≡ length p → copy_to (xs ++ zs) 0 p ≡ some (p ++ zs)
unfolding copy_to
copy_to-front xs zs p same =
    let room : leb (0 + length p) (length (xs ++ zs)) ≡ true =
      ground (arith, length-append xs zs, same) in
    let behind : 0 + length p ≡ length xs + 0 = omega (arith, same) in
    rw (room, behind, drop-append xs zs 0)

-- The length of the buffer is its size.
pub Holds-length : (s : GroffString) (bs : List ℕ) → Holds s bs → length s.ptr ≡ s.sz
Holds-length s bs held =
    let parts = length-append bs (replicate (s.sz - s.len) 0) in
    let nulls = length-replicate {A = ℕ} (s.sz - s.len) 0 in
    rw held.content (omega (arith, parts, nulls, held.measured, held.terminated))

replicate-append : (m n : ℕ) → replicate {A = ℕ} m 0 ++ replicate n 0 ≡ replicate (m + n) 0
replicate-append zero n = ap (λ k. replicate k 0) (sym (zero-add n))
replicate-append (suc m) n = rw (suc-add) (ap (λ l. 0 ∷ l) (replicate-append m n))

-- Nulls in place of the bytes and the null behind them make nulls of all.
pub clear-nulls :
    (bs : List ℕ) (sz : ℕ)
    → length bs < sz
    → replicate (length bs + 1) 0 ++ drop (length bs + 1) (bs ++ replicate (sz - length bs) 0)
      ≡ replicate sz 0
clear-nulls bs sz less =
    let rest = drop-append bs (replicate (sz - length bs) 0) 1 in
    let fewer = drop-replicate 1 (sz - length bs) in
    let total : length bs + 1 + (sz - length bs - 1) ≡ sz = omega arith in
    rw (rest, fewer, replicate-append, total)

-- The same, for a string.
pub store-Holds :
    (bs p : List ℕ) (sz : ℕ)
    → length bs + length p < sz
    → (s : GroffString) × (store (bs ++ replicate (sz - length bs) 0, sz) (length bs) p ≡ some s)
      × Holds s (bs ++ p)
store-Holds bs p sz less =
    let put = copy_to-end bs p (sz - length bs) (omega arith) in
    let fewer : sz - length bs - length p ≡ sz - (length bs + length p) = omega arith in
    (
      record {
        ptr = bs ++ p ++ replicate (sz - length bs - length p) 0;
        len = length bs + length p;
        sz = sz;
      },
      rw put,
      record { content = rw fewer; measured = sym (length-append bs p); terminated = less },
    )

-- A larger buffer, for a string that does not fit.
pub srealloc-grown :
    (bs : List ℕ) (sz newlen k : ℕ)
    → sz < newlen + 1
    → 0 < newlen
    → srealloc (bs ++ replicate k 0) sz (length bs) newlen
      ≡ (bs ++ replicate (newlen * 2 - length bs) 0, newlen * 2)
unfolding srealloc
srealloc-grown bs sz newlen k small some_len =
    let full : leb (newlen + 1) sz ≡ false = ground arith in
    let given : (newlen == 0) ≡ false = ground arith in
    rw (full, given, take-length-append bs (replicate k 0))
