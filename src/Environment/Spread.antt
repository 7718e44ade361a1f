-- ===== src/Environment/Spread.antt =====
-- `distribute_space` of env.cpp and `space_node::spread_space` of node.cpp, which adjust a line. `none` is
-- a failed assertion or undefined behaviour. The warnings are left out.
pub mod Even
pub mod Total
use groff.Prelude.{
  ℕ, zero, suc, ◌+◌, ◌-◌, ◌*◌, ◌/◌, ◌%◌, ◌^◌, ◌≤◌, ◌<◌, ◌≡◌, ◌≢◌, ◌↔◌, ◌⊎◌, refl, sym, ap, ◌∙◌, inl,
  inr, Bool, true, false, not, ◌&&◌, ◌||◌, Option, none, some, List, [], ◌∷◌, ◌++◌, append_assoc,
  append-nil, arith, ltb, leb, ◌==◌, if◌then◌else◌, Bool-cases, Option-cases, ==_iff, ==→eq, ltb→lt,
  leb→le, codes, length, get_elem?, get_or, take, drop, replicate, length-append, length-take,
  length-drop, length-replicate, take-append-drop, All, ℤ, pos, negsuc, pos_part, neg_part, ◌+ℤ◌,
  ◌-ℤ◌, ◌*ℤ◌, ◌≤ℤ◌, ◌<ℤ◌, ltb_ℤ, leb_ℤ, eq_ℤ, minus, neg, quot, rem, mag,
}
use groff.Prelude.Maybe.{◌>>=◌}
use groff.Units.{add_assign, subtract_assign, divide, is_zero}

-- A space with its width `n` and whether it is set, or a node of another class, which takes no space.
pub data Node : Type 0 where
  space_node : ℤ → Bool → Node
  other : ℕ → Node

-- The node, the number of spaces and the space that are left for those behind it.
abbrev pub Spread : Type 0
Spread = Node × ℕ × ℤ

unfoldable pub widen : ℤ → ℕ → ℤ → Option Spread
widen n nspaces desired_space =
    if nspaces == 1
    then (add_assign n desired_space >>= λ m. some (space_node m true, 0, pos 0))
    else (divide desired_space (pos nspaces) >>= λ extra.
        subtract_assign desired_space extra >>= λ rest.
        add_assign n extra >>= λ m. some (space_node m true, nspaces - 1, rest))

unfoldable pub spread_space : Node → ℕ → ℤ → Option Spread
spread_space (other k) nspaces desired_space = some (other k, nspaces, desired_space)
spread_space (space_node n set) nspaces desired_space =
    if not set
    then (if nspaces == 0 then none else widen n nspaces desired_space)
    else some (space_node n set, nspaces, desired_space)

unfoldable pub spread_nodes : List Node → ℕ → ℤ → Option (List Node)
spread_nodes [] nspaces desired_space = some []
spread_nodes (nd ∷ nodes) nspaces desired_space = spread_space nd nspaces desired_space >>= λ r.
    spread_nodes nodes r.1 r.2 >>= λ rest. some (r.0 ∷ rest)

-- The nodes of the first list are put, in turn, before those of the second.
unfoldable pub reverse_onto : List Node → List Node → List Node
reverse_onto [] res = res
reverse_onto (nd ∷ nodes) res = reverse_onto nodes (nd ∷ res)

unfoldable pub node_list_reverse : List Node → List Node
node_list_reverse nodes = reverse_onto nodes []

abbrev pub reverse_if : Bool → List Node → List Node
reverse_if b nodes = if b then node_list_reverse nodes else nodes

-- The result tells whether space was distributed; `do_reverse_node_list` is the static variable.
pub record Distribution : Type 0 where
  pub nodes : List Node
  pub distributed : Bool
  pub do_reverse_node_list : Bool

unfoldable pub distribute_space : List Node → ℕ → ℤ → Bool → Bool → Option Distribution
distribute_space nodes nspaces desired_space force_reverse_node_list do_reverse_node_list =
    if (is_zero desired_space || nspaces == 0) || ltb_ℤ desired_space (pos 0)
    then some
        (record { nodes = nodes; distributed = false; do_reverse_node_list = do_reverse_node_list })
    else (spread_nodes (reverse_if (force_reverse_node_list || do_reverse_node_list) nodes) nspaces
          desired_space
        >>= λ spread. some (record {
          nodes = reverse_if (force_reverse_node_list || do_reverse_node_list) spread;
          distributed = true;
          do_reverse_node_list =
              if not force_reverse_node_list
              then not do_reverse_node_list
              else do_reverse_node_list;
        }))
