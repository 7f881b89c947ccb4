-- ===== src/MapReduce/Run/Groups.antt =====
-- P3A: MapReduce/mapreduce.c: sorted nodes, grouped by key.
use compsci537_introduction.Common.{
  ℕ, ◌≡◌, refl, sym, ap, ◌∙◌, true, false, List, [], ◌∷◌, if◌then◌else◌, arith, All, Bool-cases,
  inl, inr,
}
use compsci537_introduction.MapReduce.Key.{Key, key_eq, key_eq→≡, key_eq_refl}
use compsci537_introduction.MapReduce.Run.{Node, key_le}

-- The values of the nodes that have the key.
unfoldable pub values_of : Key → List Node → List (List ℕ)
values_of k [] = []
values_of k (x ∷ xs) = if key_eq k x.key then x.value ∷ values_of k xs else values_of k xs

-- The values of the nodes with the key at the front, and the nodes behind these.
unfoldable pub run : Key → List Node → List (List ℕ)
run k [] = []
run k (x ∷ xs) = let rest = run k xs in if key_eq k x.key then x.value ∷ rest else []

unfoldable pub behind : Key → List Node → List Node
behind k [] = []
behind k (x ∷ xs) = let rest = behind k xs in if key_eq k x.key then rest else x ∷ xs

abbrev pub Group : Type 0
Group = Key × List (List ℕ)

-- A node in front of groups joins the first of them if it has the same key.
unfoldable pub join : Node → List Group → List Group
join x [] = (x.key, x.value ∷ []) ∷ []
join x ((k, vs) ∷ gs) =
    if key_eq x.key k then (x.key, x.value ∷ vs) ∷ gs else (x.key, x.value ∷ []) ∷ (k, vs) ∷ gs

unfoldable pub groups : List Node → List Group
unfolding join
groups [] = []
groups (x ∷ xs) = join x (groups xs)

-- The values of the groups that have the key, group by group.
unfoldable pub calls_for : Key → List Group → List (List (List ℕ))
calls_for k [] = []
calls_for k ((j, vs) ∷ gs) = if key_eq k j then vs ∷ calls_for k gs else calls_for k gs

abbrev pub once : List (List ℕ) → List (List (List ℕ))
once [] = []
once (v ∷ vs) = (v ∷ vs) ∷ []

-- No node comes before an earlier one.
abbrev pub Sorted : List Node → Type 0
Sorted [] = Unit
Sorted (x ∷ xs) = All (λ (y : Node). key_le x.key y.key ≡ true) xs × Sorted xs

key_le_antisym : (a b : Key) → key_le a b ≡ true → key_le b a ≡ true → a ≡ b
unfolding key_le
key_le_antisym [] [] h l = refl
key_le_antisym [] (d ∷ b) h l = absurd cc
key_le_antisym (c ∷ a) [] h l = absurd cc
key_le_antisym (c ∷ a) (d ∷ b) h l = ground (arith, key_le_antisym a b)

-- Once the groups are formed, a list that starts with a key is its run and the rest.
pub groups-run :
    (x : Node) (xs : List Node)
    → groups (x ∷ xs) ≡ (x.key, x.value ∷ run x.key xs) ∷ groups (behind x.key xs)
unfolding groups run behind
groups-run x [] = refl
groups-run x (y ∷ ys) =
    let tail = groups-run y ys in
    elim (Bool-cases (key_eq x.key y.key)) [
      | inl e ↦
          let same = key_eq→≡ x.key y.key e in
          rw (tail, e)
            (ap (λ j. (x.key, x.value ∷ y.value ∷ run j ys) ∷ groups (behind j ys)) (sym same))
      | inr e ↦ rw (tail, e) (rw (← tail) refl)
    ]

-- A key with a greater one at the head of a sorted list is not in the list.
absent :
    (k : Key) (y : Node) (zs : List Node)
    → key_le k y.key ≡ true
    → key_eq k y.key ≡ false
    → All (λ (z : Node). key_le y.key z.key ≡ true) zs
    → values_of k zs ≡ []
unfolding values_of
absent k y [] h n s = refl
absent k y (z ∷ zs) h n s = elim (Bool-cases (key_eq k z.key)) [
  | inl e ↦
      let same = key_eq→≡ k z.key e in
      let back : key_le y.key k ≡ true = rw same s.0 in
      let equal : k ≡ y.key = key_le_antisym k y.key h back in
      absurd (let r = key_eq_refl k in let n' : key_eq k k ≡ false = ap (key_eq k) equal ∙ n in cc)
  | inr e ↦ rw e (absent k y zs h n s.1)
]

-- One more value in the first group.
more :
    (k j : Key) (u v : List ℕ) (vs us : List (List ℕ)) (gs : List Group)
    → calls_for k ((j, v ∷ vs) ∷ gs) ≡ once us
    → calls_for k ((j, u ∷ v ∷ vs) ∷ gs) ≡ once (if key_eq k j then u ∷ us else us)
unfolding calls_for
more k j u v vs [] gs h = ground arith
more k j u v vs (w ∷ us) gs h = ground arith

-- A node that joins the first group.
joins :
    (k : Key) (x : Node) (j : Key) (v : List ℕ) (vs us : List (List ℕ)) (gs : List Group)
    → key_eq x.key j ≡ true
    → calls_for k ((j, v ∷ vs) ∷ gs) ≡ once us
    → calls_for k (join x ((j, v ∷ vs) ∷ gs)) ≡ once (if key_eq k x.key then x.value ∷ us else us)
unfolding calls_for join
joins k x j v vs us gs e h =
    let same : key_eq k x.key ≡ key_eq k j = ap (key_eq k) (key_eq→≡ x.key j e) in
    rw (e, same) (more k j x.value v vs us gs h)

-- In sorted nodes the groups have every key that occurs exactly once, with all its values in their
-- order.
pub calls_for-groups :
    (k : Key) (xs : List Node) → Sorted xs → calls_for k (groups xs) ≡ once (values_of k xs)
unfolding groups calls_for values_of join
calls_for-groups k [] s = refl
calls_for-groups k (x ∷ []) s = ground arith
calls_for-groups k (x ∷ y ∷ ys) s =
    let tail = groups-run y ys in
    let before = calls_for-groups k (y ∷ ys) s.1 in
    elim (Bool-cases (key_eq x.key y.key)) [
      | inl e ↦ rw tail (
          joins k x y.key y.value (run y.key ys) (values_of k (y ∷ ys)) (groups (behind y.key ys)) e
            (rw tail at before))
      | inr e ↦ elim (Bool-cases (key_eq k x.key)) [
        | inl f ↦
            let same : k ≡ x.key = key_eq→≡ k x.key f in
            let other : key_eq k y.key ≡ false = ap (λ j. key_eq j y.key) same ∙ e in
            let less : key_le k y.key ≡ true = ap (λ j. key_le j y.key) same ∙ s.0.0 in
            let none_there = absent k y ys less other s.1.0 in
            let no_more = rw (tail, other, none_there) at before in
            rw (tail, e, f, other, none_there) (ap (λ c. (x.value ∷ []) ∷ c) no_more)
        | inr f ↦ rw (tail, e, f) (rw tail at before)
      ]
    ]
