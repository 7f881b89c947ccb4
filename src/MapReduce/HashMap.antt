-- ===== src/MapReduce/HashMap.antt =====
-- P3A: MapReduce/hashmap.c: a hash map with linear probing, as the calls run under its lock.
pub mod Probe
pub mod Spec
pub mod Table
pub mod Resize
pub mod Laws
use compsci537_introduction.Common.{
  ℕ, zero, suc, ◌+◌, ◌*◌, ◌/◌, ◌%◌, bit_xor, Bool, true, false, Option, none, some, List, [], ◌∷◌,
  ltb, leb, ◌==◌, if◌then◌else◌, get_or, set, replicate,
}
use compsci537_introduction.MapReduce.Key.{Key, key_eq}

-- MapPair. The value is the copy of the caller's bytes.
pub record MapPair : Type 0 where
  pub key : Key
  pub value : List ℕ

-- The array of pointers to pairs; none is NULL.
abbrev pub Contents : Type 0
Contents = List (Option MapPair)

pub record HashMap : Type 0 where
  pub contents : Contents
  pub capacity : ℕ
  pub size : ℕ

abbrev pub map_init_capacity : ℕ
map_init_capacity = 11

unfoldable pub map_init : HashMap
map_init = record {
  contents = replicate map_init_capacity none;
  capacity = map_init_capacity;
  size = 0;
}

-- `size_t` is 64 bits wide.
abbrev pub size_mod : ℕ
size_mod = 18446744073709551616

-- `(size_t)(*p)` for a signed `char`
abbrev pub sign_extend : ℕ → ℕ
sign_extend c = if leb 128 c then c + 18446744073709551360 else c

-- The loop of `Hash`.
unfoldable pub hash_loop : ℕ → Key → ℕ
hash_loop hash [] = hash
hash_loop hash (c ∷ cs) =
    hash_loop (bit_xor ((bit_xor hash c * 1099511628211) % size_mod) (sign_extend c)) cs

-- `Hash`
unfoldable pub hash : Key → ℕ → ℕ
unfolding hash_loop
hash key capacity = hash_loop 14695981039346656037 key % capacity

-- `h++; if (h == capacity) h = 0;`
abbrev pub next_slot : ℕ → ℕ → ℕ
next_slot capacity h = if (h + 1) == capacity then 0 else h + 1

-- The probing loops: from slot `h` on, the first slot that passes the test that ends the loop; none
-- is a loop that has not ended within the fuel.
unfoldable pub probe : (Option MapPair → Bool) → ℕ → ℕ → Contents → ℕ → Option ℕ
probe ends zero capacity t h = none
probe ends (suc fuel) capacity t h =
    let rest = probe ends fuel capacity t (next_slot capacity h) in
    if ends (get_or t h none) then some h else rest

-- The loops of `MapPut` and `MapGet` end at NULL or at a pair with the key,
abbrev pub ends_for : Key → Option MapPair → Bool
ends_for key none = true
ends_for key (some e) = key_eq key e.key

-- and the loop of `resize_map` at NULL.
abbrev pub is_vacant : Option MapPair → Bool
is_vacant none = true
is_vacant (some e) = false

-- The rounds that are enough are the slots of the array.
unfoldable pub find : Key → ℕ → Contents → Option ℕ
unfolding probe hash
find key capacity t = probe (ends_for key) capacity capacity t (hash key capacity)

abbrev pub value_of : Option MapPair → Option (List ℕ)
value_of none = none
value_of (some e) = some e.value

-- `MapGet`: the value, or the null pointer; the outer none is a loop that does not end.
unfoldable pub map_get : HashMap → Key → Option (Option (List ℕ))
unfolding find
map_get m key = elim (find key m.capacity m.contents) [
  | none ↦ none
  | some h ↦ some (value_of (get_or m.contents h none))
]

unfoldable pub map_size : HashMap → ℕ
map_size m = m.size

-- The loop of `resize_map` over the old array.
unfoldable pub rehash : ℕ → Contents → Contents → Option Contents
unfolding probe hash
rehash newcapacity [] temp = some temp
rehash newcapacity (none ∷ rest) temp = rehash newcapacity rest temp
rehash newcapacity (some e ∷ rest) temp =
    elim (probe is_vacant newcapacity newcapacity temp (hash e.key newcapacity)) [
      | none ↦ none
      | some h ↦ rehash newcapacity rest (set temp h (some e))
    ]

-- How `resize_map` and `MapPut` end: with a new map, by `exit(0)` when `calloc` fails, or never.
pub data Outcome : Type 0 where
  done : HashMap → Outcome
  exits diverges : Outcome

-- `resize_map`. Whether `calloc` gives memory is the first argument.
unfoldable pub resize_map : Bool → HashMap → Outcome
unfolding rehash
resize_map false m = exits
resize_map true m = elim (rehash (m.capacity * 2) m.contents (replicate (m.capacity * 2) none)) [
  | none ↦ diverges
  | some temp ↦ done (record m { contents = temp; capacity = m.capacity * 2 })
]

-- `MapPut` behind its test of the size.
unfoldable pub put_pair : MapPair → HashMap → Outcome
unfolding find
put_pair newpair m = elim (find newpair.key m.capacity m.contents) [
  | none ↦ diverges
  | some h ↦ done (record m {
    contents = set m.contents h (some newpair);
    size = elim (get_or m.contents h none) [ none ↦ m.size + 1 | some e ↦ m.size ];
  })
]

unfoldable pub map_put : Bool → HashMap → Key → List ℕ → Outcome
unfolding resize_map put_pair
map_put memory m key value =
    let newpair : MapPair = record { key = key; value = value } in
    let grown : Outcome = elim (resize_map memory m) [
      | done m' ↦ put_pair newpair m'
      | exits ↦ exits
      | diverges ↦ diverges
    ] in
    if ltb (m.capacity / 2) m.size then grown else put_pair newpair m
