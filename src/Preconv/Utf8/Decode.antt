-- ===== src/Preconv/Utf8/Decode.antt =====
-- Decoding what `to_utf8_string` encodes.
use groff.Prelude.{
  ℕ, ◌+◌, ◌/◌, ◌%◌, ◌≤◌, ◌<◌, ◌≡◌, refl, ap, ◌∙◌, inl, inr, true, false, ◌&&◌, ◌||◌, List, [], ◌∷◌,
  ◌++◌, append_assoc, append-nil, arith, ltb, if◌then◌else◌, Bool-cases, All,
}
use groff.Unicode.{to_utf8_string}
use groff.Unicode.Names.{IsScalar}
use groff.Preconv.Utf8.{
  Position, first, second, third, fourth, fifth, sixth, Utf8, store, Added, replacement, is_first,
  add, add_all, decode, entities, conversion_utf8,
}
use groff.Preconv.Utf8.Bytes.{
  at_position, add-first, ascii, one_byte, two_bytes, three_bytes, four_bytes, add_all-nil, Decodes,
  interrupted,
}

encoded_one : (c : ℕ) → c < 128 → to_utf8_string c ≡ c ∷ []
unfolding to_utf8_string
encoded_one c h = let e : ltb c 128 ≡ true = ground arith in rw e refl

encoded_two :
    (c : ℕ) → 128 ≤ c → c < 2048 → to_utf8_string c ≡ (192 + c / 64 % 32) ∷ (128 + c % 64) ∷ []
unfolding to_utf8_string
encoded_two c low h =
    let e1 : ltb c 128 ≡ false = ground arith in
    let e2 : ltb c 2048 ≡ true = ground arith in rw (e1, e2) refl

encoded_three :
    (c : ℕ)
    → 2048 ≤ c
    → c < 65536
    → IsScalar c
    → to_utf8_string c ≡ (224 + c / 4096 % 16) ∷ (128 + c / 64 % 64) ∷ (128 + c % 64) ∷ []
unfolding to_utf8_string
encoded_three c low h scalar =
    let e1 : ltb c 128 ≡ false = ground arith in
    let e2 : ltb c 2048 ≡ false = ground arith in
    let e3 : (ltb c 55296 || (ltb 57343 c && ltb c 65536)) ≡ true = ground arith in
    rw (e1, e2, e3) refl

encoded_four :
    (c : ℕ)
    → 65536 ≤ c
    → c ≤ 1114111
    → to_utf8_string c
      ≡ (240 + c / 262144 % 8) ∷ (128 + c / 4096 % 64) ∷ (128 + c / 64 % 64) ∷ (128 + c % 64) ∷ []
unfolding to_utf8_string
encoded_four c low h =
    let e1 : ltb c 128 ≡ false = ground arith in
    let e2 : ltb c 2048 ≡ false = ground arith in
    let e3 : (ltb c 55296 || (ltb 57343 c && ltb c 65536)) ≡ false = ground arith in
    let e4 : (ltb 65535 c && ltb c 1179648) ≡ true = ground arith in rw (e1, e2, e3, e4) refl

-- One character.
decodes : (s : ℕ → ℕ) (n c : ℕ) → IsScalar c → Decodes s n (to_utf8_string c) c
decodes s n c scalar = elim (Bool-cases (ltb c 128)) [
  | inl one ↦ rw (encoded_one c (ground arith)) (one_byte s n c (ground arith))
  | inr more ↦ elim (Bool-cases (ltb c 2048)) [
    | inl two ↦ rw (encoded_two c (ground arith) (ground arith)) (
        two_bytes s n (192 + c / 64 % 32) (c % 64) c (ground arith) (ground arith) (ground arith)
          (ground arith))
    | inr more2 ↦ elim (Bool-cases (ltb c 65536)) [
      | inl three ↦ rw (encoded_three c (ground arith) (ground arith) scalar) (
          three_bytes s n (224 + c / 4096 % 16) (c / 64 % 64) (c % 64) c (ground arith)
            (ground arith) (ground arith) (ground arith) (ground arith) (ground arith))
      | inr four ↦ rw (encoded_four c (ground arith) (ground arith)) (
          four_bytes s n (240 + c / 262144 % 8) (c / 4096 % 64) (c / 64 % 64) (c % 64) c
            (ground arith) (ground arith) (ground arith) (ground arith) (ground arith)
            (ground arith) (ground arith) (ground arith))
    ]
  ]
]

abbrev pub encode : List ℕ → List ℕ
encode [] = []
encode (c ∷ cs) = to_utf8_string c ++ encode cs

-- Two texts one behind the other.
both : Added → (Utf8 → Added) → Added
both first_part more = ((more first_part.0).0, first_part.1 ++ (more first_part.0).1)

add_all-both :
    (u : Utf8) (text more : List ℕ)
    → add_all u (text ++ more) ≡ both (add_all u text) (λ v. add_all v more)
unfolding add_all both
add_all-both u [] more = refl
add_all-both u (c ∷ text) more =
    rw
      (
        add_all-both (add u c).0 text more,
        append_assoc ((add u c).1) ((add_all (add u c).0 text).1),
      )
      refl

add_all-append :
    (u v w : Utf8) (text more out rest : List ℕ)
    → ◌≡◌ {A = Added} (add_all u text) (v, out)
    → ◌≡◌ {A = Added} (add_all v more) (w, rest)
    → ◌≡◌ {A = Added} (add_all u (text ++ more)) (w, out ++ rest)
unfolding both
add_all-append u v w text more out rest e1 e2 = add_all-both u text more ∙ rw (e1, e2) refl

decodes_each :
    (s : ℕ → ℕ) (n : ℕ) (cs : List ℕ)
    → All IsScalar cs
    → (s' : ℕ → ℕ) × (n' : ℕ) × (add_all (at_position first s n) (encode cs)
        ≡ (at_position first s' n', cs))
decodes_each s n [] h = (s, n, add_all-nil _)
decodes_each s n (c ∷ cs) (hc, h) =
    let (s1, n1, e1) = decodes s n c hc in
    let (s2, n2, e2) = decodes_each s1 n1 cs h in
    (
      s2,
      n2,
      add_all-append _ (at_position first s1 n1) _ (to_utf8_string c) (encode cs) (c ∷ []) cs e1 e2,
    )

decode-encode : (s : ℕ → ℕ) (cs : List ℕ) → All IsScalar cs → decode s (encode cs) ≡ cs
unfolding decode
decode-encode s cs h = let (s', n', e) = decodes_each s 1 cs h in rw (e, append-nil cs) refl

-- A text of Unicode characters that is encoded in UTF-8 is printed as the entities of just these
-- characters, whatever the bytes of the decoder hold at first.
pub conversion_utf8-encode :
    (s : ℕ → ℕ) (cs : List ℕ) → All IsScalar cs → conversion_utf8 s (encode cs) ≡ entities cs
unfolding conversion_utf8
conversion_utf8-encode s cs h = ap entities (decode-encode s cs h)

ascii_at :
    (p : Position) (s : ℕ → ℕ) (n c : ℕ)
    → c < 128
    → (((add (at_position p s n) c).0).byte ≡ first)
      × ((add (at_position p s n) c).1 ≡ (if is_first p then c ∷ [] else replacement ∷ c ∷ []))
ascii_at first s n c h =
    rw (add-first s n c ∙ ascii (at_position first (store s 0 c) n) c h) (refl, refl)
ascii_at second s n c h = rw (interrupted second s n c refl h) (refl, refl)
ascii_at third s n c h = rw (interrupted third s n c refl h) (refl, refl)
ascii_at fourth s n c h = rw (interrupted fourth s n c refl h) (refl, refl)
ascii_at fifth s n c h = rw (interrupted fifth s n c refl h) (refl, refl)
ascii_at sixth s n c h = rw (interrupted sixth s n c refl h) (refl, refl)

-- An ASCII character is decoded as itself in every state of the decoder: it ends an open sequence, which
-- gives one replacement character before it, and leaves the decoder at the first byte.
pub add_ascii :
    (u : Utf8) (c : ℕ)
    → c < 128
    → (((add u c).0).byte ≡ first)
      × ((add u c).1 ≡ (if is_first u.byte then c ∷ [] else replacement ∷ c ∷ []))
add_ascii u c h = ascii_at u.byte u.s u.expected_byte_count c h
