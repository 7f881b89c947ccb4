-- ===== src/MapReduce/Run/Left.antt =====
-- P3A: MapReduce/mapreduce.c: `getValue` on the nodes that are left.
use compsci537_introduction.Common.{
  ℕ, zero, suc, ◌+◌, ◌≤◌, ◌≡◌, refl, true, false, none, some, List, [], ◌∷◌, length, arith,
  get_elem?, drop,
}
use compsci537_introduction.MapReduce.Key.{Key, key_eq, key_eq_refl}
use compsci537_introduction.MapReduce.Run.{Node, Partition, get_value}
use compsci537_introduction.MapReduce.Run.Groups.{run, behind}

-- The node that is next, from the nodes that are left.
pub get_elem?-drop :
    (xs : List Node) (n : ℕ) (x : Node) (rest : List Node)
    → drop n xs ≡ x ∷ rest
    → get_elem? xs n ≡ some x
get_elem?-drop [] zero x rest e = absurd cc
get_elem?-drop [] (suc n) x rest e = absurd cc
get_elem?-drop (y ∷ ys) zero x rest e = ground arith
get_elem?-drop (y ∷ ys) (suc n) x rest e = get_elem?-drop ys n x rest e

pub get_elem?-drop_all : (xs : List Node) (n : ℕ) → drop n xs ≡ [] → get_elem? xs n ≡ none
get_elem?-drop_all [] n e = refl
get_elem?-drop_all (y ∷ ys) zero e = absurd cc
get_elem?-drop_all (y ∷ ys) (suc n) e = get_elem?-drop_all ys n e

pub drop_next :
    (xs : List Node) (n : ℕ) (x : Node) (rest : List Node)
    → drop n xs ≡ x ∷ rest
    → drop (suc n) xs ≡ rest
drop_next [] zero x rest e = absurd cc
drop_next [] (suc n) x rest e = absurd cc
drop_next (y ∷ ys) zero x rest e = ground arith
drop_next (y ∷ ys) (suc n) x rest e = drop_next ys n x rest e

pub length-behind : (k : Key) (xs : List Node) → length (behind k xs) ≤ length xs
unfolding behind
length-behind k [] = omega arith
length-behind k (x ∷ xs) = ground (arith, length-behind k xs)

pub length-drop : (n : ℕ) (xs : List Node) → length (drop n xs) ≤ length xs
length-drop zero xs = omega arith
length-drop (suc n) [] = omega arith
length-drop (suc n) (x ∷ xs) = omega (arith, length-drop n xs)

-- `getValue` at the end of the nodes, at another key, and at its key.
pub get_value_end :
    (k : Key) (p : Partition) → drop p.num_of_access p.nodes ≡ [] → get_value k p ≡ (none, p)
unfolding get_value
get_value_end k p left = rw (get_elem?-drop_all p.nodes p.num_of_access left, get_value) refl

pub get_value_other :
    (k : Key) (p : Partition) (x : Node) (xs : List Node)
    → drop p.num_of_access p.nodes ≡ x ∷ xs
    → key_eq k x.key ≡ false
    → get_value k p ≡ (none, p)
unfolding get_value
get_value_other k p x xs left e =
    rw (get_elem?-drop p.nodes p.num_of_access x xs left, e, get_value) refl

pub get_value_match :
    (k : Key) (p : Partition) (x : Node) (xs : List Node)
    → drop p.num_of_access p.nodes ≡ x ∷ xs
    → key_eq k x.key ≡ true
    → get_value k p ≡ (some x.value, record p { num_of_access = p.num_of_access + 1 })
unfolding get_value
get_value_match k p x xs left e =
    rw (get_elem?-drop p.nodes p.num_of_access x xs left, e, get_value) refl

pub run_self : (x : Node) (xs : List Node) → run x.key (x ∷ xs) ≡ x.value ∷ run x.key xs
unfolding run
run_self x xs = rw (key_eq_refl x.key) refl

pub behind_self : (x : Node) (xs : List Node) → behind x.key (x ∷ xs) ≡ behind x.key xs
unfolding behind
behind_self x xs = rw (key_eq_refl x.key) refl
