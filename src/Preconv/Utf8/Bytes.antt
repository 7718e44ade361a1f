-- ===== src/Preconv/Utf8/Bytes.antt =====
-- The decoder, one byte and one sequence at a time.
use groff.Prelude.{
  ℕ, ◌+◌, ◌*◌, ◌%◌, ◌≤◌, ◌<◌, ◌≡◌, ◌⊎◌, refl, ◌∙◌, true, false, not, ◌&&◌, ◌||◌, List, [], ◌∷◌,
  ◌++◌, arith, ltb, leb, ◌==◌,
}
use groff.Preconv.Utf8.{
  Position, first, second, third, fourth, index, Utf8, store, Added, replacement, expecting,
  add_first, low_bits, add_continuation, is_first, add, add_all,
}

-- The decoder at a position.
abbrev pub at_position : Position → (ℕ → ℕ) → ℕ → Utf8
at_position p s n = record { s = s; byte = p; expected_byte_count = n }

pub add-first :
    (s : ℕ → ℕ) (n c : ℕ)
    → add (at_position first s n) c ≡ add_first (at_position first (store s 0 c) n) c
unfolding add
add-first s n c = refl

-- A byte that continues a sequence.
abbrev pub IsContinuation : ℕ → Type 0
IsContinuation c = (128 ≤ c) × (c < 192)

pub add-continuation :
    (p : Position) (s : ℕ → ℕ) (n c : ℕ)
    → is_first p ≡ false
    → IsContinuation c
    → add (at_position p s n) c ≡ add_continuation p (at_position p (store s (index p) c) n)
unfolding add
add-continuation p s n c later (low, high) =
    let inside : (ltb c 128 || ltb 191 c) ≡ false = ground arith in rw (later, inside) refl

leads_two : (u : Utf8) (c : ℕ) → 192 ≤ c → c < 224 → add_first u c ≡ expecting u 2
unfolding add_first
leads_two u c low high = ground arith

leads_three : (u : Utf8) (c : ℕ) → 224 ≤ c → c < 240 → add_first u c ≡ expecting u 3
unfolding add_first
leads_three u c low high = ground arith

leads_four : (u : Utf8) (c : ℕ) → 240 ≤ c → c < 248 → add_first u c ≡ expecting u 4
unfolding add_first
leads_four u c low high = ground arith

-- The sequences of two, three and four bytes, one byte at a time.
low_bits_lem : (c : ℕ) → low_bits (128 + c) ≡ c
unfolding low_bits
low_bits_lem c = ground arith

last_of_two :
    (s : ℕ → ℕ) (b c : ℕ)
    → 194 ≤ s 0
    → s 1 ≡ 128 + c
    → s 0 % 32 * 64 + c ≡ b
    → add_continuation second (at_position second s 2) ≡ (at_position first s 2, b ∷ [])
unfolding add_continuation
last_of_two s b c lead one e =
    let ok : ltb (s 0) 194 ≡ false = ground arith in rw (ok, one, low_bits_lem c, e) refl

last_of_three :
    (s : ℕ → ℕ) (b c d : ℕ)
    → (225 ≤ s 0) ⊎ (160 ≤ s 1)
    → s 1 ≡ 128 + c
    → s 2 ≡ 128 + d
    → s 0 % 32 * 4096 + c * 64 + d ≡ b
    → add_continuation third (at_position third s 3) ≡ (at_position first s 3, b ∷ [])
unfolding add_continuation
last_of_three s b c d lead one two e =
    let ok : not (leb 225 (s 0) || leb 160 (s 1)) ≡ false = ground arith in
    rw (ok, one, two, low_bits_lem c, low_bits_lem d, e) refl

last_of_four :
    (s : ℕ → ℕ) (b c d f : ℕ)
    → (241 ≤ s 0) ⊎ (144 ≤ s 1)
    → (s 0 < 244) ⊎ ((s 0 ≡ 244) × (s 1 < 144))
    → s 1 ≡ 128 + c
    → s 2 ≡ 128 + d
    → s 3 ≡ 128 + f
    → s 0 % 8 * 262144 + c * 4096 + d * 64 + f ≡ b
    → add_continuation fourth (at_position fourth s 4) ≡ (at_position first s 4, b ∷ [])
unfolding add_continuation
last_of_four s b c d f low high one two three e =
    let ok : not
          ((leb 241 (s 0) || leb 144 (s 1)) && (ltb (s 0) 244 || (s 0 == 244 && ltb (s 1) 144)))
        ≡ false =
      ground arith in
    rw (ok, one, two, three, low_bits_lem c, low_bits_lem d, low_bits_lem f, e) refl

pub add_all-nil : (u : Utf8) → add_all u [] ≡ (u, [])
unfolding add_all
add_all-nil u = refl

pub add_all-cons :
    (u v w : Utf8) (c : ℕ) (out rest text : List ℕ)
    → ◌≡◌ {A = Added} (add u c) (v, out)
    → ◌≡◌ {A = Added} (add_all v text) (w, rest)
    → ◌≡◌ {A = Added} (add_all u (c ∷ text)) (w, out ++ rest)
unfolding add_all
add_all-cons u v w c out rest text e1 e2 = rw (e1, e2) refl

pub ascii : (u : Utf8) (c : ℕ) → c < 128 → add_first u c ≡ (u, c ∷ [])
unfolding add_first
ascii u c h = ground arith

go_third :
    (s : ℕ → ℕ) (n : ℕ)
    → (n == 2) ≡ false
    → add_continuation second (at_position second s n) ≡ (at_position third s n, [])
unfolding add_continuation
go_third s n h = rw h refl

go_fourth :
    (s : ℕ → ℕ) (n : ℕ)
    → (n == 3) ≡ false
    → add_continuation third (at_position third s n) ≡ (at_position fourth s n, [])
unfolding add_continuation
go_fourth s n h = rw h refl

-- From one first position to another, some bytes give one character.
abbrev pub Decodes : (ℕ → ℕ) → ℕ → List ℕ → ℕ → Type 0
Decodes s n bytes c =
    (s' : ℕ → ℕ) × (n' : ℕ) × (add_all (at_position first s n) bytes
      ≡ (at_position first s' n', c ∷ []))

pub one_byte : (s : ℕ → ℕ) (n c : ℕ) → c < 128 → Decodes s n (c ∷ []) c
one_byte s n c h =
    let s1 = store s 0 c in
    (
      s1,
      n,
      add_all-cons _ (at_position first s1 n) _ c (c ∷ []) [] []
          (add-first s n c ∙ ascii (at_position first s1 n) c h) (add_all-nil _),
    )

pub two_bytes :
    (s : ℕ → ℕ) (n b c d : ℕ)
    → 194 ≤ b
    → b < 224
    → c < 64
    → b % 32 * 64 + c ≡ d
    → Decodes s n (b ∷ (128 + c) ∷ []) d
two_bytes s n b c d low high small e =
    let s1 = store s 0 b in
    let s2 = store s1 1 (128 + c) in
    (
      s2,
      2,
      add_all-cons _ (at_position second s1 2) _ b [] (d ∷ []) _
          (add-first s n b ∙ leads_two (at_position first s1 n) b (omega arith) high)
          (add_all-cons _ (at_position first s2 2) _ (128 + c) (d ∷ []) [] []
            (add-continuation second s1 2 (128 + c) refl (omega arith, omega arith)
              ∙ last_of_two s2 d c low refl e)
            (add_all-nil _)),
    )

pub three_bytes :
    (s : ℕ → ℕ) (n b c d v : ℕ)
    → 224 ≤ b
    → b < 240
    → (225 ≤ b) ⊎ (32 ≤ c)
    → c < 64
    → d < 64
    → b % 32 * 4096 + c * 64 + d ≡ v
    → Decodes s n (b ∷ (128 + c) ∷ (128 + d) ∷ []) v
three_bytes s n b c d v low high long hc hd e =
    let s1 = store s 0 b in
    let s2 = store s1 1 (128 + c) in
    let s3 = store s2 2 (128 + d) in
    (
      s3,
      3,
      add_all-cons _ (at_position second s1 3) _ b [] (v ∷ []) _
          (add-first s n b ∙ leads_three (at_position first s1 n) b low high)
          (add_all-cons _ (at_position third s2 3) _ (128 + c) [] (v ∷ []) _
            (add-continuation second s1 3 (128 + c) refl (omega arith, omega arith)
              ∙ go_third s2 3 refl)
            (add_all-cons _ (at_position first s3 3) _ (128 + d) (v ∷ []) [] []
              (add-continuation third s2 3 (128 + d) refl (omega arith, omega arith)
                ∙ last_of_three s3 v c d (ground arith) refl refl e)
              (add_all-nil _))),
    )

pub four_bytes :
    (s : ℕ → ℕ) (n b c d f v : ℕ)
    → 240 ≤ b
    → b < 248
    → (241 ≤ b) ⊎ (16 ≤ c)
    → (b < 244) ⊎ ((b ≡ 244) × (c < 16))
    → c < 64
    → d < 64
    → f < 64
    → b % 8 * 262144 + c * 4096 + d * 64 + f ≡ v
    → Decodes s n (b ∷ (128 + c) ∷ (128 + d) ∷ (128 + f) ∷ []) v
four_bytes s n b c d f v low high long within hc hd hf e =
    let s1 = store s 0 b in
    let s2 = store s1 1 (128 + c) in
    let s3 = store s2 2 (128 + d) in
    let s4 = store s3 3 (128 + f) in
    (
      s4,
      4,
      add_all-cons _ (at_position second s1 4) _ b [] (v ∷ []) _
          (add-first s n b ∙ leads_four (at_position first s1 n) b low high)
          (add_all-cons _ (at_position third s2 4) _ (128 + c) [] (v ∷ []) _
            (add-continuation second s1 4 (128 + c) refl (omega arith, omega arith)
              ∙ go_third s2 4 refl)
            (add_all-cons _ (at_position fourth s3 4) _ (128 + d) [] (v ∷ []) _
              (add-continuation third s2 4 (128 + d) refl (omega arith, omega arith)
                ∙ go_fourth s3 4 refl)
              (add_all-cons _ (at_position first s4 4) _ (128 + f) (v ∷ []) [] []
                (add-continuation fourth s3 4 (128 + f) refl (omega arith, omega arith)
                  ∙ last_of_four s4 v c d f (ground arith) (ground arith) refl refl refl e)
                (add_all-nil _)))),
    )

-- A byte that does not continue an open sequence.
pub interrupted :
    (p : Position) (s : ℕ → ℕ) (n c : ℕ)
    → is_first p ≡ false
    → c < 128
    → add (at_position p s n) c
      ≡ (at_position first (store (store s (index p) c) 0 c) n, replacement ∷ c ∷ [])
unfolding add
interrupted p s n c later h =
    let outside : (ltb c 128 || ltb 191 c) ≡ true = ground arith in
    rw (later, outside, ascii (at_position first (store (store s (index p) c) 0 c) n) c h) refl
