-- ===== src/Preconv/Utf8/Range.antt =====
-- What can come out of the decoder, whatever goes in.
use groff.Prelude.{
  ℕ, ◌≤◌, ◌<◌, ◌≡◌, ◌⊎◌, refl, inl, inr, false, ◌||◌, List, [], ◌∷◌, ◌++◌, arith, ltb, ◌==◌,
  Bool-cases, All,
}
use groff.Preconv.Utf8.{
  Position, first, second, third, fourth, fifth, sixth, index, Utf8, store, Added, replacement,
  add_first, low_bits, add_continuation, is_first, add, add_all, new_utf8, decode,
}
use groff.Preconv.Utf8.Bytes.{at_position, IsContinuation, add-first}

-- A sequence of four bytes has a lead byte of one.
abbrev Leads : (ℕ → ℕ) → ℕ → Type 0
Leads s n = ((n == 4) ≡ false) ⊎ (240 ≤ s 0)

-- The bytes that are stored behind the first continue the sequence.
abbrev IsDecoder : Position → (ℕ → ℕ) → ℕ → Type 0
IsDecoder first s n = Unit
IsDecoder second s n = Leads s n
IsDecoder third s n = Leads s n × IsContinuation (s 1)
IsDecoder _ s n = Leads s n × IsContinuation (s 1) × IsContinuation (s 2)

abbrev IsCodePoint : ℕ → Type 0
IsCodePoint c = c ≤ 1114111

abbrev Good : Added → Type 0
Good (u, out) = IsDecoder u.byte u.s u.expected_byte_count × All IsCodePoint out

first-Good : (s : ℕ → ℕ) (n c : ℕ) → s 0 ≡ c → c < 256 → Good (add_first (at_position first s n) c)
unfolding add_first replacement
first-Good s n c e h = ground arith

continuation-Good :
    (p : Position) (s : ℕ → ℕ) (n c : ℕ)
    → is_first p ≡ false
    → IsContinuation c
    → IsDecoder p s n
    → Good (add_continuation p (at_position p (store s (index p) c) n))
unfolding add_continuation replacement low_bits
continuation-Good first s n c later h inv = absurd (ground arith)
continuation-Good second s n c later h inv = ground arith
continuation-Good third s n c later h inv = ground arith
continuation-Good fourth s n c later h inv = ground arith
continuation-Good fifth s n c later h inv = ground arith
continuation-Good sixth s n c later h inv = (tt, (omega arith, tt))

replaced-Good : (a : Added) → Good a → Good (a.0, replacement ∷ a.1)
unfolding replacement
replaced-Good a (inv, out) = (inv, (omega arith, out))

later-Good :
    (p : Position) (s : ℕ → ℕ) (n c : ℕ)
    → is_first p ≡ false
    → c < 256
    → IsDecoder p s n
    → Good (add (at_position p s n) c)
unfolding add
later-Good p s n c later h inv = elim (Bool-cases (ltb c 128 || ltb 191 c)) [
  | inl other ↦
      rw (later, other) (replaced-Good _ (first-Good (store (store s (index p) c) 0 c) n c refl h))
  | inr inside ↦ rw (later, inside) (continuation-Good p s n c later (ground arith) inv)
]

add-Good :
    (p : Position) (s : ℕ → ℕ) (n c : ℕ)
    → c < 256
    → IsDecoder p s n
    → Good (add (at_position p s n) c)
add-Good first s n c h inv = rw (add-first s n c) (first-Good (store s 0 c) n c refl h)
add-Good second s n c h inv = later-Good second s n c refl h inv
add-Good third s n c h inv = later-Good third s n c refl h inv
add-Good fourth s n c h inv = later-Good fourth s n c refl h inv
add-Good fifth s n c h inv = later-Good fifth s n c refl h inv
add-Good sixth s n c h inv = later-Good sixth s n c refl h inv

All-append : (xs ys : List ℕ) → All IsCodePoint xs → All IsCodePoint ys → All IsCodePoint (xs ++ ys)
All-append [] ys h k = k
All-append (x ∷ xs) ys (hx, h) k = (hx, All-append xs ys h k)

add_all-Good :
    (u : Utf8) (text : List ℕ)
    → All (λ c. c < 256) text
    → IsDecoder u.byte u.s u.expected_byte_count
    → Good (add_all u text)
unfolding add_all
add_all-Good u [] h inv = (inv, tt)
add_all-Good u (c ∷ text) (hc, h) inv =
    let (inv1, out1) = add-Good u.byte u.s u.expected_byte_count c hc inv in
    let (inv2, out2) = add_all-Good ((add u c).0) text h inv1 in
    (inv2, All-append ((add u c).1) ((add_all (add u c).0 text).1) out1 out2)

-- Whatever bytes are read, only code points up to U+10FFFF come out of the decoder.
pub decode-IsCodePoint :
    (s : ℕ → ℕ) (text : List ℕ) → All (λ c. c < 256) text → All (λ c. c ≤ 1114111) (decode s text)
unfolding decode replacement
decode-IsCodePoint s text h =
    let (inv, out) = add_all-Good (new_utf8 s) text h tt in
    elim (Bool-cases (is_first ((add_all (new_utf8 s) text).0).byte)) [
      | inl ended ↦ rw ended (All-append ((add_all (new_utf8 s) text).1) [] out tt)
      | inr unended ↦
          rw unended
            (All-append ((add_all (new_utf8 s) text).1) (replacement ∷ []) out (omega arith, tt))
    ]
