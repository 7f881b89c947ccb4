-- ===== src/Sched/Table/Slots.antt =====
-- P2A: Scheduling/proc.c: the loops over the process table that look for one slot.
use compsci537_introduction.Common.{
  ℕ, zero, suc, ◌+◌, ◌<◌, ◌≡◌, refl, ap, ◌≢◌, true, false, none, some, Bool, [], ◌∷◌, arith,
  get_elem?, length, inl, inr, Bool-cases,
}
use compsci537_introduction.Sched.Table.{Proc, Table, change_first, find_slot, modify}

pub get_elem?-modify_self :
    (i : ℕ) (f : Proc → Proc) (ps : Table) (p : Proc)
    → get_elem? ps i ≡ some p
    → get_elem? (modify i f ps) i ≡ some (f p)
unfolding modify
get_elem?-modify_self i f [] p e = cc
get_elem?-modify_self zero f (q ∷ ps) p e = ground arith
get_elem?-modify_self (suc i) f (q ∷ ps) p e = get_elem?-modify_self i f ps p e

pub get_elem?-modify_ne :
    (i j : ℕ) (f : Proc → Proc) (ps : Table) → i ≢ j → get_elem? (modify i f ps) j ≡ get_elem? ps j
unfolding modify
get_elem?-modify_ne i j f [] h = refl
get_elem?-modify_ne zero zero f (q ∷ ps) h = absurd (h refl)
get_elem?-modify_ne zero (suc j) f (q ∷ ps) h = refl
get_elem?-modify_ne (suc i) zero f (q ∷ ps) h = refl
get_elem?-modify_ne (suc i) (suc j) f (q ∷ ps) h = get_elem?-modify_ne i j f ps (λ e. h (ap suc e))

pub length-modify : (i : ℕ) (f : Proc → Proc) (ps : Table) → length (modify i f ps) ≡ length ps
unfolding modify
length-modify i f [] = refl
length-modify zero f (q ∷ ps) = refl
length-modify (suc i) f (q ∷ ps) = ap suc (length-modify i f ps)

-- Every slot but `i` is the same in both tables.
abbrev pub SameBut : ℕ → Table → Table → Type 0
SameBut i ps qs = (j : ℕ) → i ≢ j → get_elem? qs j ≡ get_elem? ps j

-- Slot `i` is the first that passes the test.
pub record First (test : Proc → Bool) (ps : Table) (i : ℕ) (p : Proc) : Type 0 where
  pub here : get_elem? ps i ≡ some p
  pub passes : test p ≡ true
  pub earlier : (j : ℕ) (q : Proc) → j < i → get_elem? ps j ≡ some q → test q ≡ false

-- No slot passes the test.
abbrev pub NoneOf : (Proc → Bool) → Table → Type 0
NoneOf test ps = (j : ℕ) (q : Proc) → get_elem? ps j ≡ some q → test q ≡ false

-- The outcome of a search: the first slot, or none.
pub data Search (test : Proc → Bool) (ps : Table) : Type 0 where
  found : (i : ℕ) (p : Proc) → First test ps i p → Search test ps
  missing : NoneOf test ps → Search test ps

First-cons :
    (test : Proc → Bool) (p : Proc) (ps : Table) (i : ℕ) (q : Proc)
    → test p ≡ false
    → First test ps i q
    → First test (p ∷ ps) (suc i) q
First-cons test p ps i q e f = record { here = f.here; passes = f.passes; earlier = earlier }
  where
    earlier : (j : ℕ) (r : Proc) → j < suc i → get_elem? (p ∷ ps) j ≡ some r → test r ≡ false
    earlier zero r h k = ground arith
    earlier (suc j) r h k = f.earlier j r (omega arith) k

pub Search-slots : (test : Proc → Bool) (ps : Table) → Search test ps
Search-slots test [] = missing (λ j q e. cc)
Search-slots test (p ∷ ps) = elim (Bool-cases (test p)) [
  | inl e ↦ found 0 p (record { here = refl; passes = e; earlier = λ j q h. absurd (omega arith) })
  | inr e ↦ elim (Search-slots test ps) [
    | found i q f ↦ found (suc i) q (First-cons test p ps i q e f)
    | missing h ↦ missing (λ j q. none_cons e h j q)
  ]
]
  where
    none_cons :
        test p ≡ false
        → NoneOf test ps
        → (j : ℕ) (q : Proc) → get_elem? (p ∷ ps) j ≡ some q
        → test q ≡ false
    none_cons e h zero q k = ground arith
    none_cons e h (suc j) q k = h j q k

pub change_first-found :
    (test : Proc → Bool) (f : Proc → Proc) (ps : Table) (i : ℕ) (p : Proc)
    → First test ps i p
    → change_first test f ps ≡ some (modify i f ps)
unfolding change_first modify
change_first-found test f [] i p h = let e = h.here in cc
change_first-found test f (q ∷ ps) zero p h = let e = h.here in let t = h.passes in ground arith
change_first-found test f (q ∷ ps) (suc i) p h =
    let miss : test q ≡ false = h.earlier 0 q (omega arith) refl in
    let rest : First test ps i p = record {
      here = h.here;
      passes = h.passes;
      earlier = λ j r l k. h.earlier (suc j) r (omega arith) k;
    } in
    rw (miss, change_first-found test f ps i p rest)

pub change_first-missing :
    (test : Proc → Bool) (f : Proc → Proc) (ps : Table)
    → NoneOf test ps
    → change_first test f ps ≡ none
unfolding change_first
change_first-missing test f [] h = refl
change_first-missing test f (q ∷ ps) h =
    let miss : test q ≡ false = h 0 q refl in
    rw (miss, change_first-missing test f ps (λ j r k. h (suc j) r k))

pub find_slot-found :
    (test : Proc → Bool) (n k : ℕ) (ps : Table) (i : ℕ) (p : Proc)
    → First test ps i p
    → k ≡ n + i
    → find_slot test n ps ≡ some k
unfolding find_slot
find_slot-found test n k [] i p h q = let e = h.here in cc
find_slot-found test n k (r ∷ ps) zero p h q = let e = h.here in let t = h.passes in ground arith
find_slot-found test n k (r ∷ ps) (suc i) p h q =
    let miss : test r ≡ false = h.earlier 0 r (omega arith) refl in
    let rest : First test ps i p = record {
      here = h.here;
      passes = h.passes;
      earlier = λ j r l k. h.earlier (suc j) r (omega arith) k;
    } in
    rw miss (find_slot-found test (n + 1) k ps i p rest (omega arith))

pub find_slot-missing :
    (test : Proc → Bool) (n : ℕ) (ps : Table) → NoneOf test ps → find_slot test n ps ≡ none
unfolding find_slot
find_slot-missing test n [] h = refl
find_slot-missing test n (q ∷ ps) h =
    let miss : test q ≡ false = h 0 q refl in
    rw miss (find_slot-missing test (n + 1) ps (λ j r k. h (suc j) r k))
