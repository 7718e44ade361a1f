-- ===== src/Environment/Spread/Even.antt =====
-- How the space is shared out among the spaces of a line.
use groff.Prelude.{
  ℕ, zero, suc, ◌+◌, ◌-◌, ◌*◌, ◌/◌, ◌≤◌, ◌≡◌, refl, true, false, some, List, [], ◌∷◌, arith, ltb,
  leb, ◌==◌, if◌then◌else◌, All, ℤ, pos, negsuc, pos_part, ◌+ℤ◌, ◌-ℤ◌,
}
use native.Mathlib.Nat.{div-eq_of_lt-le}
use groff.Int32.{int_max, IsInt}
use groff.Units.{divide-pos, add_assign, subtract_assign, plain}
use groff.Environment.Spread.{Node, space_node, other, widen, spread_space, spread_nodes}

-- The spaces that are not set.
abbrev pub count_open : List Node → ℕ
count_open [] = 0
count_open (space_node n false ∷ nodes) = suc (count_open nodes)
count_open (space_node n true ∷ nodes) = count_open nodes
count_open (other k ∷ nodes) = count_open nodes

-- What each space gets: `q`, and the last `r` of them one more.
abbrev pub share : ℕ → ℕ → ℕ → ℕ
share q r behind = q + (if ltb behind r then 1 else 0)

abbrev pub evenly : ℕ → ℕ → List Node → List Node
evenly q r [] = []
evenly q r (space_node n false ∷ nodes) =
    space_node (n +ℤ pos (share q r (count_open nodes))) true ∷ evenly q r nodes
evenly q r (space_node n true ∷ nodes) = space_node n true ∷ evenly q r nodes
evenly q r (other k ∷ nodes) = other k ∷ evenly q r nodes

-- No space becomes too wide for an `int`.
abbrev pub Fits : ℕ → Node → Type 0
Fits most (space_node n set) = IsInt n × (pos_part n + most ≤ int_max)
Fits most (other k) = Unit

plain-sum :
    (n : ℤ) (e : ℕ) → IsInt n → pos_part n + e ≤ int_max → add_assign n (pos e) ≡ some (n +ℤ pos e)
unfolding add_assign plain ◌+ℤ◌
plain-sum (pos k) e h less = ground arith
plain-sum (negsuc k) e h less = ground arith

plain-difference :
    (d e : ℕ) → e ≤ d → d ≤ int_max → subtract_assign (pos d) (pos e) ≡ some (pos (d - e))
unfolding subtract_assign plain ◌-ℤ◌
plain-difference d e h less = ground arith

-- The quotient of what is left by the spaces that are left.
share-quotient :
    (n q r d : ℕ) → d ≡ suc n * q + (if leb (suc n) r then suc n else r) → d / suc n ≡ share q r n
share-quotient n q r d e = div-eq_of_lt-le {k = share q r n} (suc n) (grind arith) (grind arith)

share-rest :
    (n q r d : ℕ)
    → d ≡ suc n * q + (if leb (suc n) r then suc n else r)
    → (share q r n ≤ d) × (d - share q r n ≡ n * q + (if leb n r then n else r))
share-rest n q r d e = grind arith

-- One space takes its share, and leaves the rest.
widen-share :
    (most q r c d : ℕ) (n : ℤ)
    → Fits most (space_node n false)
    → most ≤ int_max
    → d ≤ most
    → d ≡ suc c * q + (if leb (suc c) r then suc c else r)
    → widen n (suc c) (pos d)
      ≡ some (space_node (n +ℤ pos (share q r c)) true, c, pos (d - share q r c))
unfolding widen
widen-share most q r zero d n fits small le e =
    let whole : share q r zero ≡ d = grind arith in
    let used_up : d - d ≡ 0 = omega arith in
    rw (plain-sum n d fits.0 (omega (arith, fits.1, le)), whole, used_up)
widen-share most q r (suc c) d n fits small le e =
    let rest = share-rest (suc c) q r d e in
    let fewer : suc (suc c) - 1 ≡ suc c = omega arith in
    let more : (suc (suc c) == 1) ≡ false = ground arith in
    rw (
      more,
      divide-pos d (suc (suc c)) (omega (arith, small, le)) (omega arith),
      share-quotient (suc c) q r d e,
      plain-difference d (share q r (suc c)) rest.0 (omega (arith, small, le)),
      plain-sum n (share q r (suc c)) fits.0 (omega (arith, fits.1, rest.0, le)),
      fewer,
    )

-- So each space in turn.
pub spread_nodes-evenly :
    (most q r d : ℕ) (nodes : List Node)
    → All (Fits most) nodes
    → most ≤ int_max
    → d ≤ most
    → d ≡ count_open nodes * q + (if leb (count_open nodes) r then count_open nodes else r)
    → spread_nodes nodes (count_open nodes) (pos d) ≡ some (evenly q r nodes)
unfolding spread_nodes spread_space
spread_nodes-evenly most q r d [] fits small le e = refl
spread_nodes-evenly most q r d (other k ∷ nodes) fits small le e =
    rw (spread_nodes-evenly most q r d nodes fits.1 small le e)
spread_nodes-evenly most q r d (space_node n true ∷ nodes) fits small le e =
    rw (spread_nodes-evenly most q r d nodes fits.1 small le e)
spread_nodes-evenly most q r d (space_node n false ∷ nodes) fits small le e =
    let c = count_open nodes in
    let rest = share-rest c q r d e in
    let open_space : (suc c == 0) ≡ false = ground arith in
    rw (
      open_space,
      widen-share most q r c d n fits.0 small le e,
      spread_nodes-evenly most q r (d - share q r c) nodes fits.1 small (omega (arith, le)) rest.1,
    )
