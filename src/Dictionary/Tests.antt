-- ===== src/Dictionary/Tests.antt =====
-- Runs of a small dictionary, and the theorems on it.
use groff.Prelude.{
  ℕ, ◌*◌, ◌≤◌, ◌≡◌, ◌≢◌, refl, true, Option, some, arith, ◌==◌, if◌then◌else◌, length,
}
use groff.Prelude.Maybe.{◌>>=◌}
use groff.Dictionary.{
  Dictionary, new_dictionary, is_good_size, has_divisor, is_off_powers, good_size_from, probe,
  find_slot, rehash, lookup, remove, close_hole, keeps_place, with_entry,
}
use groff.Dictionary.Valid.{
  IsValid, Represents, update, new_dictionary-IsValid, new_dictionary-Represents,
}
use groff.Dictionary.Probe.{StopsAt}
use groff.Dictionary.Insert.{with_entry-IsValid, with_entry-Represents}
use groff.Dictionary.Lookup.{CanGrow, looked_up, lookup-Represents}
use groff.Dictionary.Remove.{remove-Represents}
use groff.Dictionary.Iterate.{entries_from, value_in, entries_from-Represents}
use groff.Dictionary.Objects.{ObjectDictionary, DictionaryOps, define, rename, remove_object, alias}
use groff.Dictionary.Objects.Laws.{
  IsBound, Binds, define-IsBound, remove_object-IsBound, rename-IsBound, alias-IsBound, renamed,
}
use groff.Dictionary.Objects.Hashed.{hashed_ops, TableHasRoom}

abbrev test_hash : ℕ → ℕ
test_hash s = 5 * s

sizes : good_size_from 100 6 ≡ some 103
unfolding good_size_from is_good_size has_divisor is_off_powers
sizes = refl

-- Three symbols with one home, of which the first is removed, after the table has grown.
abbrev stored : Option Dictionary
stored = lookup test_hash 100 2 1 7 (new_dictionary 4) >>= λ r.
    lookup test_hash 100 2 104 8 r.1 >>= λ r. lookup test_hash 100 2 207 9 r.1 >>= λ r. some r.1

abbrev shortened : Option (ℕ × Dictionary)
shortened = stored >>= λ d. remove test_hash 1 d

abbrev find_in : ℕ × Dictionary → Option (ℕ × ℕ × ℕ × ℕ)
find_in r = lookup test_hash 100 2 207 0 r.1 >>= λ q. some (r.0, r.1.capacity, r.1.occupancy, q.0)

still_found : (shortened >>= find_in) ≡ some (7, 103, 2, 9)
unfolding lookup find_slot probe rehash good_size_from is_good_size has_divisor is_off_powers remove
    close_hole keeps_place
still_found = refl

abbrev empty_map : ℕ → ℕ
empty_map s = 0

can_grow : (v : ℕ) → CanGrow 100 (new_dictionary 4) v
can_grow v some_value crowded = (103, sizes)

-- A table with one entry, which the next one makes too small.
abbrev one_entry : Dictionary
one_entry = with_entry (new_dictionary 4) 1 1 7

abbrev one_map : ℕ → ℕ
one_map = update empty_map 1 7

first_stop : StopsAt 4 (new_dictionary 4).table 1 1 1
first_stop = record {
  within = omega arith;
  found = λ in_use. absurd (in_use refl);
  passed = λ j p less. absurd (ground arith);
}

new-IsValid : IsValid test_hash (new_dictionary 4)
new-IsValid = new_dictionary-IsValid test_hash 4 (omega arith)

some_seven : ◌≢◌ {A = ℕ} 7 0
some_seven e = omega arith

one-IsValid : IsValid test_hash one_entry
one-IsValid =
    with_entry-IsValid test_hash (new_dictionary 4) 1 7 1 new-IsValid some_seven refl first_stop
      refl

one-Represents : Represents one_entry one_map
one-Represents =
    with_entry-Represents test_hash (new_dictionary 4) 1 7 1 empty_map new-IsValid
      (new_dictionary-Represents 4) some_seven refl first_stop

lookup-Represents_example :
    (e : Dictionary) × (lookup test_hash 100 2 104 8 one_entry ≡ some (0, e))
    × IsValid test_hash e
    × Represents e (looked_up one_map 104 8)
lookup-Represents_example =
    lookup-Represents test_hash 100 0 one_entry 104 8 one_map one-IsValid one-Represents
      (λ some_value crowded. (103, sizes))

remove-Represents_example :
    (e : Dictionary) × (remove test_hash 1 one_entry ≡ some (7, e))
    × IsValid test_hash e
    × Represents e (update one_map 1 0)
    × (e.capacity ≡ 4)
    × (e.occupancy ≤ 1)
remove-Represents_example =
    remove-Represents test_hash 1 one_entry one_map one-IsValid one-Represents

entries_from-Represents_example :
    (length (entries_from 5 one_entry 0) ≡ 1)
    × ((q : ℕ) → value_in (entries_from 5 one_entry 0) q ≡ one_map q)
entries_from-Represents_example =
    entries_from-Represents test_hash 5 one_entry one_map one-IsValid one-Represents (omega arith)

-- The names 1 and 2, of one object each, where 2 was defined first.
abbrev small_ops : DictionaryOps Dictionary
small_ops = hashed_ops test_hash 100 0

abbrev elsewhere : ℕ → ℕ
elsewhere o = if o == 8 then 1 else 0

abbrev objects : ObjectDictionary Dictionary
objects = record {
  d = one_entry;
  heap = record {
    refcount = λ o. if o == 7 then 1 else if o == 8 then 1 else 0;
    deleted = λ o. o == 9;
  };
}

objects-IsBound : IsBound small_ops 5 elsewhere one_map objects
objects-IsBound = record {
  stands = (one-IsValid, one-Represents);
  counted = record {
    bounded = λ s known. ground arith;
    counts = λ o some_o. ground arith;
    gone = λ o dead. ground arith;
  };
}

room : TableHasRoom 100 one_entry
room crowded = (103, sizes)

define-IsBound_example :
    Binds small_ops 5 elsewhere (define small_ops 1 8 objects) (update one_map 1 8) 7
define-IsBound_example =
    define-IsBound small_ops 5 elsewhere 1 8 one_map objects objects-IsBound room (omega arith)
      (λ e. omega arith) refl

remove_object-IsBound_example :
    Binds small_ops 5 elsewhere (remove_object small_ops 1 objects) (update one_map 1 0) 7
remove_object-IsBound_example =
    remove_object-IsBound small_ops 5 elsewhere 1 one_map objects objects-IsBound (omega arith)

rename-IsBound_example :
    Binds small_ops 5 elsewhere (rename small_ops 1 2 objects) (renamed one_map 1 2) 0
rename-IsBound_example =
    rename-IsBound small_ops 5 elsewhere 1 2 one_map objects objects-IsBound room (omega arith)
      (omega arith)

alias-IsBound_example :
    (e : ObjectDictionary Dictionary) × (alias small_ops 2 1 objects ≡ some (true, e))
    × IsBound small_ops 5 elsewhere (update one_map 2 7) e
alias-IsBound_example =
    alias-IsBound small_ops 5 elsewhere 2 1 one_map objects objects-IsBound room (omega arith)
