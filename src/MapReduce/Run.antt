-- ===== src/MapReduce/Run.antt =====
-- P3A: MapReduce/mapreduce.c: emitting pairs, and the reducers' turn. A partition is what one reducer
-- thread works on; MR_Emit and getValue run as steps, since the mappers emit under a lock and each
-- partition has one reducer.
pub mod Groups
pub mod Left
pub mod Reduce
pub mod Emit
pub mod Whole
use compsci537_introduction.Common.{
  ℕ, zero, suc, ◌+◌, ◌*◌, ◌%◌, Bool, true, false, Option, none, some, List, [], ◌∷◌, ◌++◌,
  get_elem?, length, if◌then◌else◌, leb, replicate, ltb, ◌==◌, ◌&&◌, ◌||◌,
}
use compsci537_introduction.MapReduce.Key.{Key, key_eq}
use compsci537_introduction.MapReduce.HashMap.{size_mod, sign_extend}

pub record Node : Type 0 where
  pub key : Key
  pub value : List ℕ

-- `partitions[i]` with its `nodesInPartitions[i]` nodes, and `numOfAccessInPartitions[i]`.
pub record Partition : Type 0 where
  pub nodes : List Node
  pub num_of_access : ℕ

-- The partitions that `MR_Run` makes.
unfoldable pub new_partitions : ℕ → List Partition
new_partitions num_reducers = replicate num_reducers (record { nodes = []; num_of_access = 0 })

-- The node behind the last one of a partition; none is a partition that there is not.
unfoldable pub append_node : ℕ → Node → List Partition → Option (List Partition)
append_node i node [] = none
append_node zero node (p ∷ ps) = some (record p { nodes = p.nodes ++ (node ∷ []) } ∷ ps)
append_node (suc i) node (p ∷ ps) = elim (append_node i node ps) [
  | none ↦ none
  | some qs ↦ some (p ∷ qs)
]

-- `MR_Emit`. The partitioner is the program's.
unfoldable pub mr_emit : (Key → ℕ → ℕ) → Key → List ℕ → List Partition → Option (List Partition)
unfolding append_node
mr_emit partitioner key value ps =
    append_node (partitioner key (length ps)) (record { key = key; value = value }) ps

-- The loop of `MR_DefaultHashPartition`.
unfoldable pub partition_loop : ℕ → Key → ℕ
partition_loop hash [] = hash
partition_loop hash (c ∷ cs) = partition_loop ((hash * 33 + sign_extend c) % size_mod) cs

unfoldable pub default_hash_partition : Key → ℕ → ℕ
unfolding partition_loop
default_hash_partition key num_partitions = partition_loop 5381 key % num_partitions

-- `getValue` on the partition of the reducer.
unfoldable pub get_value : Key → Partition → Option (List ℕ) × Partition
get_value key p = elim (get_elem? p.nodes p.num_of_access) [
  | none ↦ (none, p)
  | some node ↦
      if key_eq key node.key
      then (some node.value, record p { num_of_access = p.num_of_access + 1 })
      else (none, p)
]

-- `cmp(a, b) <= 0`, by `strcmp`
unfoldable pub key_le : Key → Key → Bool
key_le [] b = true
key_le (c ∷ a) [] = false
key_le (c ∷ a) (d ∷ b) = ltb c d || ((c == d) && key_le a b)

-- A reducer calls `get_next` with its key until NULL: what it keeps, from the key and value by
-- value, and what comes of it.
pub record Reducer {ℓ κ} (S : Type ℓ) (R : Type κ) : Type (ℓ ⊔ κ) where
  pub begin : Key → S
  pub add : S → List ℕ → S
  pub finish : S → R

module _ {ℓ κ} {S : Type ℓ} {R : Type κ} (reducer : Reducer S R) where
  -- A reducer's calls of `get_next`; none is a loop that has not ended within the fuel.
  unfoldable pub get_all : ℕ → S → Key → Partition → Option (S × Partition)
  unfolding get_value
  get_all zero s key p = none
  get_all (suc fuel) s key p =
      let (v, q) = get_value key p in
      elim v [ none ↦ some (s, q) | some value ↦ get_all fuel (reducer.add s value) key q ]

  -- The loop of `reducerHelper`.
  unfoldable pub reducer_loop : ℕ → Partition → Option (List R × Partition)
  unfolding get_all
  reducer_loop zero p = none
  reducer_loop (suc fuel) p = elim (get_elem? p.nodes p.num_of_access) [
    | none ↦ some ([], p)
    | some node ↦ elim (get_all (length p.nodes + 1) (reducer.begin node.key) node.key p) [
      | none ↦ none
      | some (s, q) ↦ elim (reducer_loop fuel q) [
        | none ↦ none
        | some (rs, r) ↦ some (reducer.finish s ∷ rs, r)
      ]
    ]
  ]

  -- `reducerHelper`. `qsort` by `cmp` is the C library's.
  unfoldable pub reducer_helper : (List Node → List Node) → Partition → Option (List R × Partition)
  unfolding reducer_loop
  reducer_helper qsort p =
      reducer_loop (length p.nodes + 1) (record { nodes = qsort p.nodes; num_of_access = 0 })
