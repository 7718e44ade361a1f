-- ===== src/Strings.antt =====
-- src/libs/libgroff/string.cpp and src/include/stringclass.h: `string`, a buffer of characters that grows.
-- A C string that is passed is its bytes without the null at its end, and a buffer is all its bytes. `none`
-- is a write outside a buffer. Failing allocations are left out.
pub mod Buffer
pub mod Operations
pub mod Runs
mod Tests
use groff.Prelude.{
  ℕ, zero, suc, ◌+◌, ◌-◌, ◌*◌, ◌/◌, ◌%◌, ◌^◌, ◌≤◌, ◌<◌, ◌≡◌, ◌≢◌, ◌↔◌, ◌⊎◌, refl, sym, ap, ◌∙◌, inl,
  inr, Bool, true, false, not, ◌&&◌, ◌||◌, Option, none, some, List, [], ◌∷◌, ◌++◌, append_assoc,
  append-nil, arith, ltb, leb, ◌==◌, if◌then◌else◌, Bool-cases, Option-cases, ==_iff, ==→eq, ltb→lt,
  leb→le, codes, length, get_elem?, get_or, take, drop, replicate, length-append, length-take,
  length-drop, length-replicate, take-append-drop, All, ℤ, pos, negsuc, pos_part, neg_part, ◌+ℤ◌,
  ◌-ℤ◌, ◌*ℤ◌, ◌≤ℤ◌, ◌<ℤ◌, ltb_ℤ, leb_ℤ, eq_ℤ, minus, neg, quot, rem, mag, int_laws, eq_of_parts,
}
use groff.Prelude.Maybe.{◌>>=◌}

pub record GroffString : Type 0 where
  pub ptr : List ℕ
  pub len : ℕ
  pub sz : ℕ

abbrev pub initial_string_buffer_size : ℕ
initial_string_buffer_size = 64

abbrev pub amount_for : ℕ → ℕ
amount_for len = if leb initial_string_buffer_size len then len + 1 else initial_string_buffer_size

-- A buffer and its size.
abbrev pub Buffer : Type 0
Buffer = List ℕ × ℕ

unfoldable pub salloc : ℕ → Buffer
salloc len = (replicate (amount_for len) 0, amount_for len)

-- The bytes from `from` on are set to null.
abbrev pub zero_from : ℕ → ℕ → List ℕ → List ℕ
zero_from from size ptr = take from ptr ++ replicate (size - from) 0

unfoldable pub sfree_and_alloc : List ℕ → ℕ → ℕ → Buffer
sfree_and_alloc ptr oldsz len =
    if leb (len + 1) oldsz
    then (zero_from len oldsz ptr, oldsz)
    else (replicate (amount_for len) 0, amount_for len)

unfoldable pub srealloc : List ℕ → ℕ → ℕ → ℕ → Buffer
srealloc ptr oldsz oldlen newlen =
    let amount = if newlen == 0 then initial_string_buffer_size else newlen * 2 in
    if leb (newlen + 1) oldsz
    then (zero_from newlen oldsz ptr, oldsz)
    else (take oldlen ptr ++ replicate (amount - oldlen) 0, amount)

-- `memcpy(ptr + off, p, n)` for the `n` bytes `p`.
unfoldable pub copy_to : List ℕ → ℕ → List ℕ → Option (List ℕ)
copy_to ptr off p =
    if leb (off + length p) (length ptr)
    then some (take off ptr ++ p ++ drop (off + length p) ptr)
    else none

-- The string with the bytes `p` in a buffer from the position `off` on, where it ends.
abbrev pub store : Buffer → ℕ → List ℕ → Option GroffString
store b off p =
    copy_to b.0 off p >>= λ ptr. some (record { ptr = ptr; len = off + length p; sz = b.1 })

unfoldable pub empty_string : GroffString
empty_string = let b = salloc initial_string_buffer_size in record { ptr = b.0; len = 0; sz = b.1 }

-- `string(const char *, size_t)`, `string(const char *)` and the copy constructor.
unfoldable pub from_bytes : List ℕ → Option GroffString
from_bytes p = store (salloc (length p)) 0 p

-- `string(const char *, size_t, const char *, size_t)`, for `operator+`.
unfoldable pub from_two : List ℕ → List ℕ → Option GroffString
from_two p q =
    if length p + length q == 0
    then (let b = salloc initial_string_buffer_size in
        some (record { ptr = b.0; len = 0; sz = b.1 }))
    else (let b = salloc (length p + length q) in
        copy_to b.0 0 p >>= λ ptr. copy_to ptr (length p) q >>= λ ptr2.
        some (record { ptr = ptr2; len = length p + length q; sz = b.1 }))

-- The bytes that a string stands for.
abbrev pub bytes : GroffString → List ℕ
bytes s = take s.len s.ptr

-- `operator=` for a string, a C string and, as one byte, a character.
unfoldable pub assign : GroffString → List ℕ → Option GroffString
assign s p = store (sfree_and_alloc s.ptr s.sz (length p)) 0 p

-- `operator+=` for a string and a C string.
unfoldable pub concat : GroffString → List ℕ → Option GroffString
concat s p =
    let newlen = s.len + length p in
    store (if ltb s.sz (newlen + 1) then srealloc s.ptr s.sz s.len newlen else (s.ptr, s.sz)) s.len
      p

-- `append`, whose test leaves out the null at the end.
unfoldable pub append : GroffString → List ℕ → Option GroffString
append s p =
    let newlen = s.len + length p in
    if ltb 0 (length p)
    then store (if ltb s.sz newlen then srealloc s.ptr s.sz s.len newlen else (s.ptr, s.sz)) s.len p
    else some s

-- `operator+=` for a string does nothing with an empty one.
unfoldable pub concat_string : GroffString → GroffString → Option GroffString
concat_string s t = if not (t.len == 0) then concat s (bytes t) else some s

unfoldable pub embiggen : GroffString → GroffString
embiggen s =
    let b = srealloc s.ptr s.sz s.len (s.len + 1) in record { ptr = b.0; len = s.len; sz = b.1 }

-- `operator+=` for a character, whose test leaves out the null at the end.
unfoldable pub add_char : GroffString → ℕ → Option GroffString
add_char s c =
    let t = if leb s.sz s.len then embiggen s else s in store (t.ptr, t.sz) t.len (c ∷ [])

unfoldable pub set_length : GroffString → ℕ → GroffString
set_length s i =
    let b = if ltb s.sz i then srealloc s.ptr s.sz s.len i else (s.ptr, s.sz) in
    record { ptr = b.0; len = i; sz = b.1 }

unfoldable pub clear : GroffString → GroffString
clear s =
    let n = if ltb s.len s.sz then s.len + 1 else s.sz in
    record { ptr = replicate n 0 ++ drop n s.ptr; len = 0; sz = s.sz }

-- The string and the one that it is moved from, which is left empty.
unfoldable pub move : GroffString → GroffString → GroffString × GroffString
move this s = (s, clear this)
