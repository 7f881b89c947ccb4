-- ===== src/MapReduce/Run/Reduce.antt =====
-- P3A: MapReduce/mapreduce.c: what the loop of `reducerHelper` makes of the nodes of a partition.
use compsci537_introduction.Common.{
  ℕ, zero, suc, ◌+◌, ◌<◌, ◌≡◌, refl, sym, ap, ◌∙◌, Option, some, List, [], ◌∷◌, length, arith,
  Bool-cases, inl, inr, drop, map,
}
use mathlib.Core.List.{Permᴰ}
use mathlib.Core.List.Permᴰ
use mathlib.Core.List.Permᴰ.{nil, cons, swap, trans}
use compsci537_introduction.MapReduce.Key.{Key, key_eq}
use compsci537_introduction.MapReduce.Run.{
  Node, Partition, Reducer, get_all, reducer_loop, reducer_helper,
}
use compsci537_introduction.MapReduce.Run.Groups.{
  values_of, run, behind, Group, groups, groups-run, calls_for, once, Sorted, calls_for-groups,
}
use compsci537_introduction.MapReduce.Run.Left.{
  get_elem?-drop, get_elem?-drop_all, drop_next, length-behind, length-drop, get_value_end,
  get_value_other, get_value_match, run_self, behind_self,
}

module _ {ℓ κ} {S : Type ℓ} {R : Type κ} (reducer : Reducer S R) where
  -- What a reducer keeps after values.
  pub add_all : S → List (List ℕ) → S
  add_all s [] = s
  add_all s (v ∷ vs) = add_all (reducer.add s v) vs

  -- One call of the reducer, on all the values of a group.
  abbrev pub reduce : Group → R
  reduce (k, vs) = reducer.finish (add_all (reducer.begin k) vs)

  -- From a state in which the nodes `xs` are left, the calls of `get_next` with a key give the
  -- values of the run of that key, and leave what is behind it.
  get_all_lem :
      (fuel : ℕ) (s : S) (k : Key) (p : Partition) (xs : List Node)
      → drop p.num_of_access p.nodes ≡ xs
      → length xs < fuel
      → (n : ℕ) × (get_all reducer fuel s k p
          ≡ some (add_all s (run k xs), record p { num_of_access = n }))
        × (drop n p.nodes ≡ behind k xs)
  unfolding get_all add_all run behind
  get_all_lem zero s k p xs left enough = absurd (omega arith)
  get_all_lem (suc fuel) s k p [] left enough = (
    p.num_of_access,
    rw (get_value_end k p left, get_all)
        (ap (λ (r : Option (List ℕ) × Partition). some (s, r.1)) (get_value_end k p left)),
    left,
  )
  get_all_lem (suc fuel) s k p (x ∷ xs) left enough = elim (Bool-cases (key_eq k x.key)) [
    | inl e ↦
        let one : p.num_of_access + 1 ≡ suc p.num_of_access = omega arith in
        let (n, f, l) =
          get_all_lem fuel (reducer.add s x.value) k
            (record p { num_of_access = p.num_of_access + 1 }) xs
            (ap (λ m. drop m p.nodes) one ∙ drop_next p.nodes p.num_of_access x xs left)
            (omega arith) in
        (
          n,
          rw (get_value_match k p x xs left e, e, get_all)
              (ap
                  (λ (r : Option (List ℕ) × Partition).
                    get_all reducer fuel (reducer.add s x.value) k r.1)
                  (get_value_match k p x xs left e)
                ∙ f),
          rw e l,
        )
    | inr e ↦ (
      p.num_of_access,
      rw (get_value_other k p x xs left e, e, get_all)
          (ap (λ (r : Option (List ℕ) × Partition). some (s, r.1))
            (get_value_other k p x xs left e)),
      rw e left,
    )
  ]

  -- The loop of `reducerHelper` calls the reducer once for each group of the nodes left.
  reducer_loop_lem :
      (fuel : ℕ) (p : Partition) (xs : List Node)
      → drop p.num_of_access p.nodes ≡ xs
      → length xs < fuel
      → (q : Partition) × (reducer_loop reducer fuel p ≡ some (map reduce (groups xs), q))
  unfolding reducer_loop groups
  reducer_loop_lem zero p xs left enough = absurd (omega arith)
  reducer_loop_lem (suc fuel) p [] left enough =
      (p, rw (get_elem?-drop_all p.nodes p.num_of_access left, reducer_loop) refl)
  reducer_loop_lem (suc fuel) p (x ∷ xs) left enough =
      let next = get_elem?-drop p.nodes p.num_of_access x xs left in
      let few = length-drop p.num_of_access p.nodes in
      let size = ap length left in
      let (n, f, l) =
        get_all_lem (length p.nodes + 1) (reducer.begin x.key) x.key p (x ∷ xs) left
          (omega arith) in
      let one_run = run_self x xs in
      let shorter = length-behind x.key xs in
      let (q, g) =
        reducer_loop_lem fuel (record p { num_of_access = n }) (behind x.key xs)
          (l ∙ behind_self x xs) (omega arith) in
      (
        q,
        rw (next, f, g, groups-run x xs, reducer_loop)
            (ap
              (λ vs. some (
                reducer.finish (add_all (reducer.begin x.key) vs)
                    ∷ map reduce (groups (behind x.key xs)),
                q,
              ))
              one_run),
      )

-- The values of a key in a permutation of the nodes.
values_of-Permᴰ :
    (k : Key) {xs ys : List Node} → Permᴰ xs ys → Permᴰ (values_of k xs) (values_of k ys)
unfolding values_of
values_of-Permᴰ k nil = nil
values_of-Permᴰ k (cons {a} {b} e r) =
    let same : key_eq k b.key ≡ key_eq k a.key = ap (λ (z : Node). key_eq k z.key) (sym e) in
    let value : a.value ≡ b.value = ap (λ (z : Node). z.value) e in
    elim (Bool-cases (key_eq k a.key)) [
      | inl y ↦ rw (same, y) (cons value (values_of-Permᴰ k r))
      | inr n ↦ rw (same, n) (values_of-Permᴰ k r)
    ]
values_of-Permᴰ k (swap {a} {b} {a'} {b'} {l} e f) =
    let same_a : key_eq k b'.key ≡ key_eq k a.key = ap (λ (z : Node). key_eq k z.key) (sym e) in
    let same_b : key_eq k a'.key ≡ key_eq k b.key = ap (λ (z : Node). key_eq k z.key) (sym f) in
    let value_a : a.value ≡ b'.value = ap (λ (z : Node). z.value) e in
    let value_b : b.value ≡ a'.value = ap (λ (z : Node). z.value) f in
    let rest = Permᴰ.refl (values_of k l) in
    elim (Bool-cases (key_eq k a.key)) [
      | inl y ↦ elim (Bool-cases (key_eq k b.key)) [
        | inl y' ↦ rw (same_a, same_b, y, y') (swap value_a value_b)
        | inr n' ↦ rw (same_a, same_b, y, n') (cons value_a rest)
      ]
      | inr n ↦ elim (Bool-cases (key_eq k b.key)) [
        | inl y' ↦ rw (same_a, same_b, n, y') (cons value_b rest)
        | inr n' ↦ rw (same_a, same_b, n, n') rest
      ]
    ]
values_of-Permᴰ k (trans r s) = trans (values_of-Permᴰ k r) (values_of-Permᴰ k s)

length-Permᴰ : {xs ys : List Node} → Permᴰ xs ys → length xs ≡ length ys
length-Permᴰ nil = refl
length-Permᴰ (cons e r) = ap suc (length-Permᴰ r)
length-Permᴰ (swap e f) = refl
length-Permᴰ (trans r s) = length-Permᴰ r ∙ length-Permᴰ s

-- What the C library promises of `qsort` by `cmp`: a sorted permutation.
pub record IsSort (qsort : List Node → List Node) : Type 0 where
  pub sorted : (xs : List Node) → Sorted (qsort xs)
  pub same : (xs : List Node) → Permᴰ (qsort xs) xs

-- `reducerHelper` returns, and calls the reducer exactly once for each key of its partition, with
-- all the values of that key and no others, in some order, if `qsort` gives a sorted permutation.
pub reducer_helper_lem {ℓ κ} :
    {S : Type ℓ} {R : Type κ} (reducer : Reducer S R) (qsort : List Node → List Node)
    (p : Partition)
    → IsSort qsort
    → (calls : List Group) × (q : Partition) × (reducer_helper reducer qsort p
        ≡ some (map (reduce reducer) calls, q))
      × ((k : Key)
          → (vs : List (List ℕ)) × Permᴰ vs (values_of k p.nodes) × (calls_for k calls ≡ once vs))
unfolding reducer_helper
reducer_helper_lem reducer qsort p sorts =
    let (q, e) =
      reducer_loop_lem reducer (length p.nodes + 1)
        (record { nodes = qsort p.nodes; num_of_access = 0 }) (qsort p.nodes) refl
        (omega (arith, length-Permᴰ (sorts.same p.nodes))) in
    (
      groups (qsort p.nodes),
      q,
      e,
      λ k. (
        values_of k (qsort p.nodes),
        values_of-Permᴰ k (sorts.same p.nodes),
        calls_for-groups k (qsort p.nodes) (sorts.sorted p.nodes),
      ),
    )
