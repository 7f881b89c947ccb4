-- ===== src/MapReduce/HashMap/Laws.antt =====
-- P3A: MapReduce/hashmap.c: `MapGet`, `MapPut` and `resize_map` against a finite map.
use compsci537_introduction.Common.{
  ℕ, ◌+◌, ◌*◌, ◌/◌, ◌≤◌, ◌≡◌, refl, ap, true, Option, none, some, [], ◌∷◌, List, arith, inl, inr,
  Bool-cases, Option-cases, ltb, if◌then◌else◌,
}
use compsci537_introduction.MapReduce.Key.{Key, key_eq}
use compsci537_introduction.MapReduce.HashMap.{
  MapPair, HashMap, find, map_init, map_get, resize_map, put_pair, map_put, Outcome, done, exits,
  diverges,
}
use compsci537_introduction.MapReduce.HashMap.Probe.{slot}
use compsci537_introduction.MapReduce.HashMap.Spec.{
  entry_of, entry_of-replicate, occupied, occupied-set_vacant, occupied-set_pair,
}
use compsci537_introduction.MapReduce.HashMap.Resize.{rehash_all, empty-IsTable}
use compsci537_introduction.MapReduce.HashMap.Table.{
  IsTable, one_key, find_total, find-ends, find-value, written, entry_of-written, IsTable-written,
}

-- A map as the calls keep it.
pub record IsValid (m : HashMap) : Type 0 where
  pub table : IsTable m.capacity m.contents
  pub counted : m.size ≡ occupied m.contents
  pub load : m.size ≤ m.capacity / 2 + 1
  pub large : 11 ≤ m.capacity

-- The map that a `HashMap` stands for.
abbrev pub view : HashMap → Key → Option (List ℕ)
view m k = entry_of k m.contents

-- `MapGet` on a valid map returns, with the value that the map has for the key or null.
pub map_get_lem : (m : HashMap) (k : Key) → IsValid m → map_get m k ≡ some (view m k)
unfolding map_get
map_get_lem m k v =
    let (j, f) = find_total m.capacity m.contents v.table k in
    rw (f, map_get) (ap some (find-value m.capacity m.contents v.table k j f))

-- What `MapPut` and `resize_map` promise of the new map.
pub record IsPut (m m' : HashMap) (k : Key) (value : List ℕ) : Type 0 where
  pub valid : IsValid m'
  pub maps : (k' : Key) → view m' k' ≡ (if key_eq k' k then some value else view m k')
  pub sized : m'.size ≡ m.size + elim (view m k) [ none ↦ 1 | some x ↦ 0 ]

IsPut-new :
    (e : MapPair) (m : HashMap) (j : ℕ)
    → IsValid m
    → m.size ≤ m.capacity / 2
    → find e.key m.capacity m.contents ≡ some j
    → slot m.contents j ≡ none
    → (m' : HashMap) × (put_pair e m ≡ done m') × IsPut m m' e.key e.value
unfolding put_pair
IsPut-new e m j v small f vacant =
    let t = v.table in
    let counted = v.counted in
    let large = v.large in
    let more =
      occupied-set_vacant m.contents j e (find-ends m.capacity m.contents t e.key j f).1 vacant in
    let absent = rw vacant at (find-value m.capacity m.contents t e.key j f) in
    (
      record m { contents = written m.capacity m.contents t e j f; size = m.size + 1 },
      rw (f, vacant, put_pair),
      record {
        valid = record {
          table = IsTable-written m.capacity m.contents t e j f (omega arith);
          counted = omega arith;
          load = omega arith;
          large = large;
        };
        maps = entry_of-written m.capacity m.contents t e j f;
        sized = rw (← absent) refl;
      },
    )

IsPut-old :
    (e x : MapPair) (m : HashMap) (j : ℕ)
    → IsValid m
    → find e.key m.capacity m.contents ≡ some j
    → slot m.contents j ≡ some x
    → (m' : HashMap) × (put_pair e m ≡ done m') × IsPut m m' e.key e.value
unfolding put_pair
IsPut-old e x m j v f taken =
    let t = v.table in
    let counted = v.counted in
    let room = t.room in
    let same = occupied-set_pair m.contents j x e taken in
    let present = rw taken at (find-value m.capacity m.contents t e.key j f) in
    (
      record m { contents = written m.capacity m.contents t e j f },
      rw (f, taken, put_pair),
      record {
        valid = record {
          table = IsTable-written m.capacity m.contents t e j f (omega arith);
          counted = omega arith;
          load = v.load;
          large = v.large;
        };
        maps = entry_of-written m.capacity m.contents t e j f;
        sized = rw (← present) (omega arith);
      },
    )

put_pair_lem :
    (e : MapPair) (m : HashMap)
    → IsValid m
    → m.size ≤ m.capacity / 2
    → (m' : HashMap) × (put_pair e m ≡ done m') × IsPut m m' e.key e.value
put_pair_lem e m v small =
    let (j, f) = find_total m.capacity m.contents v.table e.key in
    elim (Option-cases (slot m.contents j)) [
      | inl vacant ↦ IsPut-new e m j v small f vacant
      | inr (x, taken) ↦ IsPut-old e x m j v f taken
    ]

-- `resize_map` on a valid map, with memory for the new array: twice the capacity, the same map.
resize_map_lem :
    (m : HashMap)
    → IsValid m
    → (m' : HashMap) × (resize_map true m ≡ done m')
      × IsValid m'
      × (m'.size ≡ m.size)
      × (m'.size ≤ m'.capacity / 2)
      × ((k : Key) → view m' k ≡ view m k)
unfolding resize_map
resize_map_lem m v =
    let room = v.table.room in
    let counted = v.counted in
    let load = v.load in
    let large = v.large in
    let (temp, e, t, maps, same) =
      rehash_all (m.capacity * 2) m.contents (one_key m.capacity m.contents v.table)
        (omega arith) in
    (
      record m { contents = temp; capacity = m.capacity * 2 },
      rw (e, resize_map),
      record { table = t; counted = omega arith; load = omega arith; large = omega arith },
      refl,
      omega arith,
      maps,
    )

-- The same loop when `MapPut` calls it: enough room for one more pair.
IsPut-grown :
    (e : MapPair) (m : HashMap)
    → IsValid m
    → (m' : HashMap) × (m'' : HashMap) × (resize_map true m ≡ done m')
      × (put_pair e m' ≡ done m'')
      × IsPut m m'' e.key e.value
IsPut-grown e m v =
    let (m', f, v', same, small, maps) = resize_map_lem m v in
    let (m'', g, put) = put_pair_lem e m' v' small in
    (
      m',
      m'',
      f,
      g,
      record {
        valid = put.valid;
        maps = λ k. ground (arith, put.maps k, maps k);
        sized = ground (arith, put.sized, maps e.key);
      },
    )

-- `MapPut` on a valid map, with memory for the new array if the map has to grow, returns. The new
-- map is valid, has the value at the key and is as before at every other key, and its size grows
-- by one exactly if the key was not there.
pub map_put_lem :
    (m : HashMap) (k : Key) (value : List ℕ)
    → IsValid m
    → (m' : HashMap) × (map_put true m k value ≡ done m') × IsPut m m' k value
unfolding map_put
map_put_lem m k value v =
    let e : MapPair = record { key = k; value = value } in
    elim (Bool-cases (ltb (m.capacity / 2) m.size)) [
      | inl y ↦ let (m', m'', f, g, put) = IsPut-grown e m v in (m'', rw (y, f) g, put)
      | inr n ↦ let (m', f, put) = put_pair_lem e m v (ground arith) in (m', rw n f, put)
    ]

-- `MapInit` gives a valid map with no key.
pub map_init_lem : IsValid map_init × ((k : Key) → view map_init k ≡ none) × (map_init.size ≡ 0)
unfolding map_init occupied
map_init_lem = (
  record {
    table = empty-IsTable 11 (omega arith);
    counted = refl;
    load = omega arith;
    large = omega arith;
  },
  λ k. entry_of-replicate k 11,
  refl,
)

-- What a caller's puts leave, in order, and the value that the last of them gives a key.
pub put_all : HashMap → List (Key × List ℕ) → Outcome
put_all m [] = done m
put_all m ((k, value) ∷ rest) = elim (map_put true m k value) [
  | done m' ↦ put_all m' rest
  | exits ↦ exits
  | diverges ↦ diverges
]

pub last_put : Key → Option (List ℕ) → List (Key × List ℕ) → Option (List ℕ)
last_put k o [] = o
last_put k o ((j, value) ∷ rest) = last_put k (if key_eq k j then some value else o) rest

put_all_from :
    (ops : List (Key × List ℕ)) (m : HashMap)
    → IsValid m
    → (m' : HashMap) × (put_all m ops ≡ done m')
      × IsValid m'
      × ((k : Key) → map_get m' k ≡ some (last_put k (view m k) ops))
unfolding put_all last_put
put_all_from [] m v = (m, refl, v, λ k. map_get_lem m k v)
put_all_from ((j, value) ∷ rest) m v =
    let (m', f, put) = map_put_lem m j value v in
    let (m'', g, v'', gets) = put_all_from rest m' put.valid in
    (m'', rw (f, put_all) g, v'', λ k. rw (← put.maps k) (gets k))

-- Any puts into the map of `MapInit`, with memory whenever the map grows, all return, and then
-- `MapGet` returns, for every key, the value of the last put with that key, or null if there was
-- none, through every resize and collision.
pub put_all-map_get :
    (ops : List (Key × List ℕ))
    → (m : HashMap) × (put_all map_init ops ≡ done m)
      × ((k : Key) → map_get m k ≡ some (last_put k none ops))
put_all-map_get ops =
    let (valid, blank, _) = map_init_lem in
    let (m, f, v, gets) = put_all_from ops map_init valid in (m, f, λ k. rw (← blank k) (gets k))
