-- ===== src/Dictionary.antt =====
-- `association`, `dictionary` and `dictionary_iterator` of dictionary.h and dictionary.cpp: a hash table
-- with linear probing, downwards. A symbol is a number, 0 the null one, and a value is a pointer, 0 where
-- it is null. `hash` is `symbol::hash`, which depends on where a symbol's text is stored.
pub mod Gap
pub mod Valid
pub mod Probe
pub mod Insert
pub mod Replace
pub mod Scan
pub mod Grow
pub mod Lookup
pub mod Hole
pub mod Move
pub mod Close
pub mod Remove
pub mod Objects
pub mod Iterate
mod Tests
use groff.Prelude.{
  ℕ, zero, suc, ◌+◌, ◌-◌, ◌*◌, ◌/◌, ◌%◌, ◌≤◌, ◌<◌, Bool, true, false, not, ◌&&◌, ◌||◌, Option, none,
  some, ltb, leb, ◌==◌, if◌then◌else◌,
}
use groff.Prelude.Maybe.{◌>>=◌}

pub record Association : Type 0 where
  pub s : ℕ
  pub v : ℕ

-- `threshold` and `factor` are never changed from 0.5 and 1.5, and stand in `is_crowded` and `grown`.
pub record Dictionary : Type 0 where
  pub capacity : ℕ
  pub occupancy : ℕ
  pub table : ℕ → Association

abbrev pub set_slot : (ℕ → Association) → ℕ → Association → ℕ → Association
set_slot table p a q = if q == p then a else table q

abbrev pub new_dictionary : ℕ → Dictionary
new_dictionary n = record { capacity = n; occupancy = 0; table = λ i. record { s = 0; v = 0 } }

-- No number from `i` up to half of `p` divides it; `n` is how many there are.
unfoldable pub has_divisor : ℕ → ℕ → ℕ → Bool
has_divisor zero i p = false
has_divisor (suc n) i p = p % i == 0 || has_divisor n (i + 1) p

-- The second loop runs for `i` from 2 ^ 8 to 2 ^ 56, by eight bits each, where `ssize_t` has 64.
unfoldable pub is_off_powers : ℕ → ℕ → ℕ → Bool
is_off_powers zero i p = true
is_off_powers (suc n) i p =
    not (leb (i % p) 10 || ltb (p - 10) (i % p)) && is_off_powers n (i * 256) p

unfoldable pub is_good_size : ℕ → Bool
is_good_size p = not (has_divisor (p / 2 - 1) 2 p) && is_off_powers 7 256 p

-- The search for a good size, for at most `fuel` sizes.
unfoldable pub good_size_from : ℕ → ℕ → Option ℕ
good_size_from zero p = none
good_size_from (suc fuel) p =
    let rest = good_size_from fuel (p + 1) in if is_good_size p then some p else rest

-- The step of a probe.
abbrev pub previous : ℕ → ℕ → ℕ
previous capacity i = if i == 0 then capacity - 1 else i - 1

-- The slot where the loop of `lookup` and that of `remove` stop.
unfoldable pub probe : ℕ → ℕ → (ℕ → Association) → ℕ → ℕ → Option ℕ
probe zero capacity table s i = none
probe (suc fuel) capacity table s i =
    let rest = probe fuel capacity table s (previous capacity i) in
    if (table i).v == 0 || s == (table i).s then some i else rest

abbrev pub is_crowded : ℕ → ℕ → Bool
is_crowded occupancy capacity = leb capacity (2 * occupancy) || leb capacity (occupancy + 1)

abbrev pub grown : ℕ → ℕ
grown capacity = 3 * capacity / 2

-- The slots from `i` on, `n` of them, are looked up in the new table with their values.
unfoldable pub rehash :
    (ℕ → ℕ → Dictionary → Option (ℕ × Dictionary))
    → (ℕ → Association)
    → ℕ
    → ℕ
    → Dictionary
    → Option Dictionary
rehash store old_table zero i d = some d
rehash store old_table (suc n) i d =
    if (old_table i).v == 0
    then rehash store old_table n (i + 1) d
    else (store (old_table i).s (old_table i).v d >>= λ r. rehash store old_table n (i + 1) r.1)

-- What `lookup` does at the slot `i` where its loop stops: to find, to fail, or to store.
abbrev pub with_value : Dictionary → ℕ → ℕ → ℕ → Dictionary
with_value d i s v = record {
  capacity = d.capacity;
  occupancy = d.occupancy;
  table = set_slot d.table i (record { s = (d.table i).s; v = v });
}

abbrev pub with_entry : Dictionary → ℕ → ℕ → ℕ → Dictionary
with_entry d i s v = record {
  capacity = d.capacity;
  occupancy = d.occupancy + 1;
  table = set_slot d.table i (record { s = s; v = v });
}

-- Whether the entry in slot `i`, whose home is `r`, stays there with a hole at `j`: the test of the inner
-- loop of `remove`.
unfoldable pub keeps_place : ℕ → ℕ → ℕ → Bool
keeps_place i r j = ((leb i r && ltb r j) || (ltb r j && ltb j i)) || (ltb j i && leb i r)

module _ (hash : ℕ → ℕ) where
  abbrev pub home : Dictionary → ℕ → ℕ
  home d s = hash s % d.capacity

  unfoldable pub find_slot : Dictionary → ℕ → Option ℕ
  find_slot d s = probe d.capacity d.capacity d.table s (home d s)

  -- `lookup`, whose calls of itself are at most `depth` deep, which searches for a new size among `fuel`
  -- numbers. A null value asks for the value of the symbol. The capacity has no bound here: the code ends
  -- the program where it would wrap around.
  unfoldable pub lookup : ℕ → ℕ → ℕ → ℕ → Dictionary → Option (ℕ × Dictionary)
  lookup fuel zero s v d = none
  lookup fuel (suc depth) s v d =
      let store = lookup fuel depth in
      (find_slot d s >>= λ i.
      if not ((d.table i).v == 0)
      then some ((d.table i).v, (if not (v == 0) then with_value d i s v else d))
      else if v == 0
      then some (0, d)
      else if is_crowded (d.occupancy + 1) d.capacity
      then (good_size_from fuel (grown d.capacity) >>= λ size.
          rehash store (with_entry d i s v).table d.capacity 0 (new_dictionary size) >>= λ e.
          some (0, e))
      else some (0, with_entry d i s v))

  -- Both loops of `remove`, one slot further on: the entry there is passed, or fills the hole at `j` and
  -- leaves a hole of its own. An empty slot ends them, and is copied over the hole.
  unfoldable pub close_hole : ℕ → ℕ → (ℕ → Association) → ℕ → ℕ → Option (ℕ → Association)
  close_hole zero capacity table j i = none
  close_hole (suc fuel) capacity table j i =
      let k = previous capacity i in
      let moved = set_slot table j (table k) in
      let emptied = set_slot moved k (record { s = (table k).s; v = 0 }) in
      if (table k).v == 0
      then some moved
      else elim (keeps_place k (hash (table k).s % capacity) j) [
        | true ↦ close_hole fuel capacity table j k
        | false ↦ close_hole fuel capacity emptied k k
      ]

  unfoldable pub remove : ℕ → Dictionary → Option (ℕ × Dictionary)
  remove s d = find_slot d s >>= λ i.
      if (d.table i).v == 0
      then some (0, d)
      else (close_hole d.capacity d.capacity
            (set_slot d.table i (record { s = (d.table i).s; v = 0 })) i i
          >>= λ t. some (
            (d.table i).v,
            record { capacity = d.capacity; occupancy = d.occupancy - 1; table = t },
          ))

-- `dictionary_iterator::get`: the next slot in use among `n` from `i` on, the index behind it, its symbol
-- and its value.
unfoldable pub next_entry : ℕ → Dictionary → ℕ → Option (ℕ × ℕ × ℕ)
next_entry zero d i = none
next_entry (suc n) d i =
    let rest = next_entry n d (suc i) in
    if not ((d.table i).v == 0) then some (suc i, (d.table i).s, (d.table i).v) else rest

unfoldable pub iterator_get : Dictionary → ℕ → Option (ℕ × ℕ × ℕ)
iterator_get d i = next_entry (d.capacity - i) d i
