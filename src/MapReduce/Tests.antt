-- ===== src/MapReduce/Tests.antt =====
-- P3A: MapReduce/hashmap.c and mapreduce.c at concrete maps, pairs and a concrete sort.
use compsci537_introduction.Common.{
  ℕ, ◌≡◌, refl, some, none, true, false, List, [], ◌∷◌, ◌+◌, ◌<◌, if◌then◌else◌, Bool-cases, inl,
  inr, All, arith, get_elem?,
}
use mathlib.Core.List.{map, Permᴰ}
use mathlib.Core.List.Permᴰ
use mathlib.Core.List.Permᴰ.{nil, cons, swap, trans}
use compsci537_introduction.MapReduce.Key.{Key}
use compsci537_introduction.MapReduce.Run.{
  Node, Partition, Reducer, key_le, default_hash_partition, new_partitions, reducer_helper,
}
use compsci537_introduction.MapReduce.Run.Groups.{Group, Sorted, values_of, calls_for, once}
use compsci537_introduction.MapReduce.Run.Reduce.{IsSort, reduce, reducer_helper_lem}
use compsci537_introduction.MapReduce.Run.Emit.{emit_all, share, default_hash_partition-lt}
use compsci537_introduction.MapReduce.Run.Whole.{reduced_once}
use compsci537_introduction.MapReduce.HashMap.{HashMap, map_init, map_get, map_put, done}
use compsci537_introduction.MapReduce.HashMap.Laws.{
  IsPut, map_init_lem, map_put_lem, put_all, last_put, put_all-map_get,
}

-- "ab"
abbrev ab : Key
ab = 97 ∷ 98 ∷ []

abbrev three_puts : List (Key × List ℕ)
three_puts = (ab, 1 ∷ []) ∷ (98 ∷ [], 2 ∷ []) ∷ (ab, 3 ∷ []) ∷ []

map_put_lem_example :
    (m : HashMap) × (map_put true map_init ab (1 ∷ []) ≡ done m) × IsPut map_init m ab (1 ∷ [])
map_put_lem_example = map_put_lem map_init ab (1 ∷ []) map_init_lem.0

put_all-map_get_example :
    (m : HashMap) × (put_all map_init three_puts ≡ done m)
    × ((k : Key) → map_get m k ≡ some (last_put k none three_puts))
put_all-map_get_example = put_all-map_get three_puts

-- An insertion sort, as one `qsort`.
insert : Node → List Node → List Node
insert x [] = x ∷ []
insert x (y ∷ ys) = let rest = insert x ys in if key_le x.key y.key then x ∷ y ∷ ys else y ∷ rest

sort : List Node → List Node
sort [] = []
sort (x ∷ xs) = insert x (sort xs)

key_le_total : (a b : Key) → key_le a b ≡ false → key_le b a ≡ true
unfolding key_le
key_le_total [] b h = absurd cc
key_le_total (c ∷ a) [] h = refl
key_le_total (c ∷ a) (d ∷ b) h = ground (arith, key_le_total a b)

key_le_trans : (a b c : Key) → key_le a b ≡ true → key_le b c ≡ true → key_le a c ≡ true
unfolding key_le
key_le_trans [] b c h l = refl
key_le_trans (x ∷ a) [] c h l = absurd cc
key_le_trans (x ∷ a) (y ∷ b) [] h l = absurd cc
key_le_trans (x ∷ a) (y ∷ b) (z ∷ c) h l = ground (arith, key_le_trans a b c)

-- A node that comes before the first of sorted nodes comes before all of them.
below_rest :
    (x y : Node) (ys : List Node)
    → key_le x.key y.key ≡ true
    → All (λ (z : Node). key_le y.key z.key ≡ true) ys
    → All (λ (z : Node). key_le x.key z.key ≡ true) ys
below_rest x y [] h s = _
below_rest x y (z ∷ zs) h s = (key_le_trans x.key y.key z.key h s.0, below_rest x y zs h s.1)

insert-above :
    (x y : Node) (ys : List Node)
    → key_le y.key x.key ≡ true
    → All (λ (z : Node). key_le y.key z.key ≡ true) ys
    → All (λ (z : Node). key_le y.key z.key ≡ true) (insert x ys)
unfolding insert
insert-above x y [] h s = (h, _)
insert-above x y (z ∷ zs) h s = elim (Bool-cases (key_le x.key z.key)) [
  | inl b ↦ rw b (h, s)
  | inr b ↦ rw b (s.0, insert-above x y zs h s.1)
]

insert-Sorted : (x : Node) (ys : List Node) → Sorted ys → Sorted (insert x ys)
unfolding insert
insert-Sorted x [] s = (_, _)
insert-Sorted x (y ∷ ys) s = elim (Bool-cases (key_le x.key y.key)) [
  | inl b ↦ rw b ((b, below_rest x y ys b s.0), s)
  | inr b ↦ rw b (insert-above x y ys (key_le_total x.key y.key b) s.0, insert-Sorted x ys s.1)
]

sort-Sorted : (xs : List Node) → Sorted (sort xs)
unfolding sort
sort-Sorted [] = _
sort-Sorted (x ∷ xs) = insert-Sorted x (sort xs) (sort-Sorted xs)

insert-Permᴰ : (x : Node) (ys : List Node) → Permᴰ (insert x ys) (x ∷ ys)
unfolding insert
insert-Permᴰ x [] = cons refl nil
insert-Permᴰ x (y ∷ ys) = elim (Bool-cases (key_le x.key y.key)) [
  | inl b ↦ rw b (Permᴰ.refl (x ∷ y ∷ ys))
  | inr b ↦ rw b (trans (cons refl (insert-Permᴰ x ys)) (swap refl refl))
]

sort-Permᴰ : (xs : List Node) → Permᴰ (sort xs) xs
unfolding sort
sort-Permᴰ [] = nil
sort-Permᴰ (x ∷ xs) = trans (insert-Permᴰ x (sort xs)) (cons refl (sort-Permᴰ xs))

sort-IsSort : IsSort sort
sort-IsSort = record { sorted = sort-Sorted; same = sort-Permᴰ }

-- A reducer that counts the values of its key.
abbrev count_values : Reducer (Key × ℕ) (Key × ℕ)
count_values = record { begin = λ k. (k, 0); add = λ s v. (s.0, s.1 + 1); finish = λ s. s }

abbrev words : List Node
words =
    record { key = ab; value = 1 ∷ [] }
    ∷ record { key = 98 ∷ []; value = [] }
    ∷ record { key = ab; value = 2 ∷ [] }
    ∷ []

reducer_helper_lem_example :
    (calls : List Group) × (q : Partition) × (reducer_helper count_values sort
        (record { nodes = words; num_of_access = 0 })
      ≡ some (map (reduce count_values) calls, q))
    × ((k : Key)
        → (vs : List (List ℕ)) × Permᴰ vs (values_of k words) × (calls_for k calls ≡ once vs))
reducer_helper_lem_example =
    reducer_helper_lem count_values sort (record { nodes = words; num_of_access = 0 }) sort-IsSort

below_two : (k : Key) → default_hash_partition k 2 < 2
below_two k = default_hash_partition-lt k 2 (omega arith)

reduced_once_example :
    (qs : List Partition) × (emit_all default_hash_partition words (new_partitions 2) ≡ some qs)
    × ((j : ℕ)
        → j < 2
        → (p : Partition) × (calls : List Group) × (q : Partition) × (get_elem? qs j ≡ some p)
          × (reducer_helper count_values sort p ≡ some (map (reduce count_values) calls, q))
          × ((k : Key)
              → (vs : List (List ℕ)) × Permᴰ vs (share default_hash_partition 2 j k words)
                × (calls_for k calls ≡ once vs)))
reduced_once_example =
    reduced_once count_values sort default_hash_partition 2 words sort-IsSort below_two
