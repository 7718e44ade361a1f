-- ===== src/Environment/Spread/Total.antt =====
-- The whole of the space is shared out, from either end of the line.
use groff.Prelude.{
  ℕ, suc, ◌+◌, ◌*◌, ◌/◌, ◌%◌, ◌≤◌, ◌<◌, ◌≡◌, refl, sym, ap, ◌∙◌, Bool, true, false, not, ◌||◌, some,
  List, [], ◌∷◌, arith, ltb, leb, ◌==◌, if◌then◌else◌, All, ℤ, pos, ◌+ℤ◌, int_laws, eq_of_parts,
}
use native.Mathlib.Nat.{div-add-mod, mod-lt}
use groff.Int32.{int_max}
use groff.Units.{is_zero}
use groff.Environment.Spread.{
  Node, space_node, other, spread_nodes, reverse_onto, node_list_reverse, reverse_if, Distribution,
  distribute_space,
}
use groff.Environment.Spread.Even.{count_open, share, evenly, Fits, spread_nodes-evenly}

-- The width of the spaces of a line.
abbrev pub total_width : List Node → ℤ
total_width [] = pos 0
total_width (space_node n set ∷ nodes) = n +ℤ total_width nodes
total_width (other k ∷ nodes) = total_width nodes

+ℤ_assoc : (a b c : ℤ) → a +ℤ (b +ℤ c) ≡ a +ℤ b +ℤ c
+ℤ_assoc a b c = eq_of_parts (a +ℤ (b +ℤ c)) (a +ℤ b +ℤ c) (omega int_laws)

+ℤ_rotate : (a b c : ℤ) → a +ℤ (b +ℤ c) ≡ b +ℤ a +ℤ c
+ℤ_rotate a b c = eq_of_parts (a +ℤ (b +ℤ c)) (b +ℤ a +ℤ c) (omega int_laws)

pos_zero-+ℤ : (a : ℤ) → pos 0 +ℤ a ≡ a
pos_zero-+ℤ a = eq_of_parts (pos 0 +ℤ a) a (omega int_laws)

+ℤ_gather : (n t : ℤ) (s p : ℕ) → n +ℤ pos s +ℤ (t +ℤ pos p) ≡ n +ℤ t +ℤ pos (s + p)
+ℤ_gather n t s p =
    eq_of_parts (n +ℤ pos s +ℤ (t +ℤ pos p)) (n +ℤ t +ℤ pos (s + p)) (omega int_laws)

-- The shares of the spaces come to the whole.
total_width-evenly :
    (q r : ℕ) (nodes : List Node)
    → total_width (evenly q r nodes)
      ≡ total_width nodes
        +ℤ pos (count_open nodes * q + (if leb (count_open nodes) r then count_open nodes else r))
total_width-evenly q r [] = rw (pos_zero-+ℤ) (ground arith)
total_width-evenly q r (other k ∷ nodes) = total_width-evenly q r nodes
total_width-evenly q r (space_node n true ∷ nodes) = rw (total_width-evenly q r nodes) (
    +ℤ_assoc n (total_width nodes)
      (pos (count_open nodes * q + (if leb (count_open nodes) r then count_open nodes else r))))
total_width-evenly q r (space_node n false ∷ nodes) =
    let c = count_open nodes in
    let rest = c * q + (if leb c r then c else r) in
    let sum : share q r c + rest ≡ suc c * q + (if leb (suc c) r then suc c else r) = grind arith in
    rw (total_width-evenly q r nodes) (
      +ℤ_gather n (total_width nodes) (share q r c) rest
      ∙ ap (λ p. n +ℤ total_width nodes +ℤ pos p) sum)

total_width-reverse_onto :
    (nodes res : List Node)
    → total_width (reverse_onto nodes res) ≡ total_width nodes +ℤ total_width res
unfolding reverse_onto
total_width-reverse_onto [] res = sym (pos_zero-+ℤ (total_width res))
total_width-reverse_onto (other k ∷ nodes) res = total_width-reverse_onto nodes (other k ∷ res)
total_width-reverse_onto (space_node n set ∷ nodes) res =
    total_width-reverse_onto nodes (space_node n set ∷ res)
    ∙ +ℤ_rotate (total_width nodes) n (total_width res)

total_width-reverse_if :
    (b : Bool) (nodes : List Node) → total_width (reverse_if b nodes) ≡ total_width nodes
unfolding node_list_reverse
total_width-reverse_if true nodes =
    total_width-reverse_onto nodes []
    ∙ eq_of_parts (total_width nodes +ℤ pos 0) (total_width nodes) (omega int_laws)
total_width-reverse_if false nodes = refl

count_open-reverse_onto :
    (nodes res : List Node)
    → count_open (reverse_onto nodes res) ≡ count_open nodes + count_open res
unfolding reverse_onto
count_open-reverse_onto [] res = omega arith
count_open-reverse_onto (other k ∷ nodes) res = count_open-reverse_onto nodes (other k ∷ res)
count_open-reverse_onto (space_node n true ∷ nodes) res =
    count_open-reverse_onto nodes (space_node n true ∷ res)
count_open-reverse_onto (space_node n false ∷ nodes) res =
    omega (arith, count_open-reverse_onto nodes (space_node n false ∷ res))

count_open-reverse_if :
    (b : Bool) (nodes : List Node) → count_open (reverse_if b nodes) ≡ count_open nodes
unfolding node_list_reverse
count_open-reverse_if true nodes = omega (arith, count_open-reverse_onto nodes [])
count_open-reverse_if false nodes = refl

All-reverse_onto :
    (most : ℕ) (nodes res : List Node)
    → All (Fits most) nodes
    → All (Fits most) res
    → All (Fits most) (reverse_onto nodes res)
unfolding reverse_onto
All-reverse_onto most [] res h g = g
All-reverse_onto most (nd ∷ nodes) res h g = All-reverse_onto most nodes (nd ∷ res) h.1 (h.0, g)

All-reverse_if :
    (most : ℕ) (b : Bool) (nodes : List Node)
    → All (Fits most) nodes
    → All (Fits most) (reverse_if b nodes)
unfolding node_list_reverse
All-reverse_if most true nodes h = All-reverse_onto most nodes [] h tt
All-reverse_if most false nodes h = h

-- Where the line has `nspaces` spaces that are not set, one at least, and there is space to distribute,
-- by which no space gets too wide for an `int`, `distribute_space` ends without a failed assertion or an
-- overflow. Every space gets the quotient of the space by their number, and as many as the remainder says,
-- the last ones in the order in which the line is walked, one unit more; nodes keep their order, and the
-- widths together grow by the whole of the space. Unless the order was forced, the next line is walked
-- from its other end.
pub distribute_space-evenly :
    (nodes : List Node) (d : ℕ) (force flag : Bool)
    → 0 < d
    → d ≤ int_max
    → 0 < count_open nodes
    → All (Fits d) nodes
    → (r : Distribution) × (distribute_space nodes (count_open nodes) (pos d) force flag ≡ some r)
      × (r.nodes
          ≡ reverse_if (force || flag) (
              evenly
                (d / count_open nodes)
                (d % count_open nodes)
                (reverse_if (force || flag) nodes)))
      × (total_width r.nodes ≡ total_width nodes +ℤ pos d)
      × (r.distributed ≡ true)
      × (r.do_reverse_node_list ≡ (if not force then not flag else flag))
unfolding distribute_space is_zero
distribute_space-evenly nodes d force flag some_space small some_spaces fits =
    let b = force || flag in
    let line = reverse_if b nodes in
    let c = count_open nodes in
    let count : count_open line ≡ c = count_open-reverse_if b nodes in
    let q = d / c in
    let r = d % c in
    let left = mod-lt d some_spaces in
    let whole : d ≡ c * q + (if leb c r then c else r) = grind (arith, div-add-mod d c, left) in
    let whole' : d
        ≡ count_open line * q + (if leb (count_open line) r then count_open line else r) =
      rw count whole in
    let spread : spread_nodes line c (pos d) ≡ some (evenly q r line) = rw count at (
      spread_nodes-evenly d q r d line (All-reverse_if d b nodes fits) small (omega arith)
        whole') in
    let guard : ((d + 0 == 0 || c == 0) || ltb (d + 0) 0) ≡ false = ground arith in
    (
      record {
        nodes = reverse_if b (evenly q r line);
        distributed = true;
        do_reverse_node_list = if not force then not flag else flag;
      },
      rw (guard, spread),
      refl,
      total_width-reverse_if b (evenly q r line)
          ∙ (total_width-evenly q r line
              ∙ (ap (λ p. total_width line +ℤ pos p) (sym whole')
                  ∙ ap (λ w. w +ℤ pos d) (total_width-reverse_if b nodes))),
      refl,
      refl,
    )
