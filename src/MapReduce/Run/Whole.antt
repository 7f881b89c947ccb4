-- ===== src/MapReduce/Run/Whole.antt =====
-- P3A: MapReduce/mapreduce.c: from the emitted pairs to the reducers' calls.
use compsci537_introduction.Common.{
  ℕ, zero, suc, ◌<◌, ◌≡◌, ap, ◌∙◌, some, List, [], ◌++◌, arith, get_elem?, get_elem?_total, map,
  length-replicate, replicate,
}
use mathlib.Core.List.{Permᴰ}
use mathlib.Core.Path.{subst}
use compsci537_introduction.MapReduce.Key.{Key}
use compsci537_introduction.MapReduce.Run.{Node, Partition, Reducer, new_partitions, reducer_helper}
use compsci537_introduction.MapReduce.Run.Groups.{values_of, Group, calls_for, once}
use compsci537_introduction.MapReduce.Run.Reduce.{reduce, IsSort, reducer_helper_lem}
use compsci537_introduction.MapReduce.Run.Emit.{emit_all, share, emit_all_lem}

get_elem?-replicate :
    (n i : ℕ) (p q : Partition) → i < n → get_elem? (replicate n p) i ≡ some q → q ≡ p
get_elem?-replicate zero i p q h e = absurd (omega arith)
get_elem?-replicate (suc n) zero p q h e = ground arith
get_elem?-replicate (suc n) (suc i) p q h e = get_elem?-replicate n i p q (omega arith) e

-- If the partitioner stays below the number of reducers and `qsort` gives a sorted permutation, then
-- after any calls of `MR_Emit`, which all succeed, each reducer returns and calls the program's
-- reducer once for each emitted key of its partition, with all the values that were emitted with
-- the key, in some order, and for no other key.
pub reduced_once {ℓ κ} :
    {S : Type ℓ} {R : Type κ} (reducer : Reducer S R) (qsort : List Node → List Node)
    (partitioner : Key → ℕ → ℕ) (n : ℕ) (xs : List Node)
    → IsSort qsort
    → ((k : Key) → partitioner k n < n)
    → (qs : List Partition) × (emit_all partitioner xs (new_partitions n) ≡ some qs)
      × ((j : ℕ)
          → j < n
          → (p : Partition) × (calls : List Group) × (q : Partition) × (get_elem? qs j ≡ some p)
            × (reducer_helper reducer qsort p ≡ some (map (reduce reducer) calls, q))
            × ((k : Key)
                → (vs : List (List ℕ)) × Permᴰ vs (share partitioner n j k xs)
                  × (calls_for k calls ≡ once vs)))
unfolding new_partitions values_of
reduced_once reducer qsort partitioner n xs sorts inside =
    let blank : Partition = record { nodes = []; num_of_access = 0 } in
    let size = length-replicate n blank in
    let (qs, e, many, rest) = emit_all_lem partitioner n xs (replicate n blank) inside size in
    (
      qs,
      e,
      λ j h.
          let (start, g) = get_elem?_total (replicate n blank) j (omega (arith, size)) in
          let new = get_elem?-replicate n j blank start h g in
          let (p, f, values) = rest j start g in
          let (calls, q, ran, each) = reducer_helper_lem reducer qsort p sorts in
          (
            p,
            calls,
            q,
            f,
            ran,
            λ k.
                let (vs, same, ones) = each k in
                let all =
                  values k
                  ∙ ap (λ (b : Partition). values_of k b.nodes ++ share partitioner n j k xs) new in
                (vs, subst (Permᴰ vs) all same, ones),
          ),
    )
