-- ===== src/MapReduce/Run/Emit.antt =====
-- P3A: MapReduce/mapreduce.c: the pairs that are emitted.
use compsci537_introduction.Common.{
  ℕ, zero, suc, ◌<◌, ◌≡◌, refl, sym, ap, ◌∙◌, Bool, true, false, Option, none, some, List, [], ◌∷◌,
  ◌++◌, length, if◌then◌else◌, arith, Bool-cases, inl, inr, get_elem?, ◌==◌,
}
use mathlib.Core.List.{append_assoc, append-nil}
use compsci537_introduction.MapReduce.Key.{Key, key_eq, key_eq→≡}
use compsci537_introduction.MapReduce.Run.{
  Node, Partition, append_node, mr_emit, default_hash_partition,
}
use compsci537_introduction.MapReduce.Run.Groups.{values_of}

-- Calls of `MR_Emit`, in the order in which the lock admits them.
unfoldable pub emit_all : (Key → ℕ → ℕ) → List Node → List Partition → Option (List Partition)
emit_all partitioner [] ps = some ps
emit_all partitioner (x ∷ xs) ps = elim (mr_emit partitioner x.key x.value ps) [
  | none ↦ none
  | some qs ↦ emit_all partitioner xs qs
]

values_of-append :
    (k : Key) (xs ys : List Node) → values_of k (xs ++ ys) ≡ values_of k xs ++ values_of k ys
unfolding values_of
values_of-append k [] ys = refl
values_of-append k (x ∷ xs) ys = elim (Bool-cases (key_eq k x.key)) [
  | inl y ↦ rw y (ap (λ vs. x.value ∷ vs) (values_of-append k xs ys))
  | inr n ↦ rw n (values_of-append k xs ys)
]

-- A node goes into the partition of the index, behind the nodes that are there.
record Appended (i : ℕ) (node : Node) (ps qs : List Partition) : Type 0 where
  many : length qs ≡ length ps
  nodes :
      (j : ℕ) (p : Partition)
      → get_elem? ps j ≡ some p
      → (q : Partition) × (get_elem? qs j ≡ some q)
        × (q.nodes ≡ (if i == j then p.nodes ++ (node ∷ []) else p.nodes))

append_node_lem :
    (i : ℕ) (node : Node) (ps : List Partition)
    → i < length ps
    → (qs : List Partition) × (append_node i node ps ≡ some qs) × Appended i node ps qs
unfolding append_node
append_node_lem i node [] h = absurd (omega arith)
append_node_lem zero node (p ∷ ps) h =
    (record p { nodes = p.nodes ++ (node ∷ []) } ∷ ps, refl, record { many = refl; nodes = there })
  where
    there :
        (j : ℕ) (q : Partition)
        → get_elem? (p ∷ ps) j ≡ some q
        → (r : Partition) × (get_elem? (record p { nodes = p.nodes ++ (node ∷ []) } ∷ ps) j
            ≡ some r)
          × (r.nodes ≡ (if 0 == j then q.nodes ++ (node ∷ []) else q.nodes))
    there zero q e = (record p { nodes = p.nodes ++ (node ∷ []) }, refl, ground arith)
    there (suc j) q e = (q, e, ground arith)
append_node_lem (suc i) node (p ∷ ps) h =
    let (qs, e, a) = append_node_lem i node ps (omega arith) in
    (p ∷ qs, rw e refl, record { many = ap suc a.many; nodes = there qs a })
  where
    there :
        (qs : List Partition)
        → Appended i node ps qs
        → (j : ℕ) (q : Partition) → get_elem? (p ∷ ps) j ≡ some q
        → (r : Partition) × (get_elem? (p ∷ qs) j ≡ some r)
          × (r.nodes ≡ (if suc i == j then q.nodes ++ (node ∷ []) else q.nodes))
    there qs a zero q e = (p, refl, ground arith)
    there qs a (suc j) q e = let (r, f, g) = a.nodes j q e in (r, f, ground arith)

-- A node that does not have the key.
no_value : (k : Key) (x : Node) → key_eq k x.key ≡ false → values_of k (x ∷ []) ≡ []
unfolding values_of
no_value k x n = rw n refl

-- The values of a key in a partition after a node `x` is emitted, by whether the partition is that
-- of the node and that of the key.
values_of-emitted :
    (k : Key) (x : Node) (old new : List Node) (of_x of_k : Bool)
    → new ≡ (if of_x then old ++ (x ∷ []) else old)
    → (key_eq k x.key ≡ true → of_x ≡ of_k)
    → values_of k new ≡ values_of k old ++ (if of_k then values_of k (x ∷ []) else [])
values_of-emitted k x old new true true e h = ap (values_of k) e ∙ values_of-append k old (x ∷ [])
values_of-emitted k x old new false false e h =
    ap (values_of k) e ∙ sym (append-nil (values_of k old))
values_of-emitted k x old new true false e h = elim (Bool-cases (key_eq k x.key)) [
  | inl y ↦ absurd (let w = h y in cc)
  | inr n ↦
      ap (values_of k) e
      ∙ values_of-append k old (x ∷ [])
      ∙ ap (λ vs. values_of k old ++ vs) (no_value k x n)
]
values_of-emitted k x old new false true e h = elim (Bool-cases (key_eq k x.key)) [
  | inl y ↦ absurd (let w = h y in cc)
  | inr n ↦
      ap (values_of k) e
      ∙ sym (append-nil (values_of k old))
      ∙ ap (λ vs. values_of k old ++ vs) (sym (no_value k x n))
]

module _ (partitioner : Key → ℕ → ℕ) where
  -- The values of the key that belong into partition `j` of `n`.
  abbrev pub share : ℕ → ℕ → Key → List Node → List (List ℕ)
  share n j k xs = if partitioner k n == j then values_of k xs else []

  share-append :
      (n j : ℕ) (k : Key) (x : Node) (xs : List Node)
      → share n j k (x ∷ []) ++ share n j k xs ≡ share n j k (x ∷ xs)
  share-append n j k x xs = elim (Bool-cases (partitioner k n == j)) [
    | inl y ↦ rw y (sym (values_of-append k (x ∷ []) xs))
    | inr m ↦ rw m refl
  ]

  share_nil : (n j : ℕ) (k : Key) → share n j k [] ≡ []
  unfolding values_of
  share_nil n j k = elim (Bool-cases (partitioner k n == j)) [
    | inl y ↦ rw y refl
    | inr m ↦ rw m refl
  ]

  -- Every call of `MR_Emit` succeeds if the partitioner stays below the number of partitions, and
  -- the values of a key are in the partition of the key, in the order of the calls.
  pub emit_all_lem :
      (n : ℕ) (xs : List Node) (ps : List Partition)
      → ((k : Key) → partitioner k n < n)
      → length ps ≡ n
      → (qs : List Partition) × (emit_all partitioner xs ps ≡ some qs)
        × (length qs ≡ n)
        × ((j : ℕ) (p : Partition)
            → get_elem? ps j ≡ some p
            → (q : Partition) × (get_elem? qs j ≡ some q)
              × ((k : Key) → values_of k q.nodes ≡ values_of k p.nodes ++ share n j k xs))
  unfolding emit_all mr_emit
  emit_all_lem n [] ps inside size = (
    ps,
    refl,
    size,
    λ j p e. (
      p,
      e,
      λ k.
          sym (append-nil (values_of k p.nodes))
          ∙ ap (λ vs. values_of k p.nodes ++ vs) (sym (share_nil n j k)),
    ),
  )
  emit_all_lem n (x ∷ xs) ps inside size =
      let low = inside x.key in
      let (mid, e, a) = append_node_lem (partitioner x.key (length ps)) x ps (rw size low) in
      let (qs, f, size', rest) = emit_all_lem n xs mid inside (a.many ∙ size) in
      (qs, rw (e, emit_all) f, size', there mid qs a rest)
    where
      there :
          (mid qs : List Partition)
          → Appended (partitioner x.key (length ps)) x ps mid
          → ((j : ℕ) (p : Partition)
              → get_elem? mid j ≡ some p
              → (q : Partition) × (get_elem? qs j ≡ some q)
                × ((k : Key) → values_of k q.nodes ≡ values_of k p.nodes ++ share n j k xs))
          → (j : ℕ) (p : Partition) → get_elem? ps j ≡ some p
          → (q : Partition) × (get_elem? qs j ≡ some q)
            × ((k : Key) → values_of k q.nodes ≡ values_of k p.nodes ++ share n j k (x ∷ xs))
      there mid qs a rest j p g =
          let (r, g', new) = a.nodes j p g in
          let (q, g'', values) = rest j r g' in
          (
            q,
            g'',
            λ k.
                let one =
                  values_of-emitted k x p.nodes r.nodes (partitioner x.key (length ps) == j)
                    (partitioner k n == j) new
                    (λ y.
                      ap (λ m. partitioner x.key m == j) size
                      ∙ ap (λ z. partitioner z n == j) (sym (key_eq→≡ k x.key y))) in
                values k
                ∙ ap (λ vs. vs ++ share n j k xs) one
                ∙ append_assoc (values_of k p.nodes) (share n j k (x ∷ [])) (share n j k xs)
                ∙ ap (λ vs. values_of k p.nodes ++ vs) (share-append n j k x xs),
          )

-- The default partitioner stays below any positive number of partitions.
pub default_hash_partition-lt : (k : Key) (n : ℕ) → 0 < n → default_hash_partition k n < n
unfolding default_hash_partition
default_hash_partition-lt k n h = omega arith
