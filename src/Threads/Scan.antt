-- ===== src/Threads/Scan.antt =====
-- P3B: xv6 Kernel threads/proc.c: what the loops of `wait` and `join` find in the process table.
use compsci537_introduction.Common.{
  ℕ, zero, suc, ◌+◌, ◌<◌, ◌≡◌, refl, ap, ◌∙◌, ◌⊎◌, inl, inr, Bool, true, false, ◌&&◌, ◌||◌, some,
  [], ◌∷◌, get_elem?, Bool-cases, arith,
}
use mathlib.Core.Path.{subst}
use mathlib.Core.Option.{some-injective, none-ne-some}
use compsci537_introduction.Sched.Table.{is_zombie}
use compsci537_introduction.Threads.Kernel.{Proc, Table, Scan, exited, others, scan}

-- A process that is looked for and has exited, and a table without one before slot `n`.
abbrev pub Exited : (Proc → Bool) → Proc → Type 0
Exited mine p = (mine p ≡ true) × (is_zombie p.state ≡ true)

abbrev pub NoneBefore : (Proc → Bool) → ℕ → Table → Type 0
NoneBefore mine n ps =
    (j : ℕ) (p : Proc) → j < n → get_elem? ps j ≡ some p → (mine p && is_zombie p.state) ≡ false

abbrev pub NoneAtAll : (Proc → Bool) → Table → Type 0
NoneAtAll mine ps =
    (j : ℕ) (p : Proc) → get_elem? ps j ≡ some p → (mine p && is_zombie p.state) ≡ false

abbrev pub Some : (Proc → Bool) → Table → Type 0
Some mine ps = (j : ℕ) × (p : Proc) × (get_elem? ps j ≡ some p) × (mine p ≡ true)

-- What the loop finds from slot `i` on.
pub data Found (mine : Proc → Bool) (i : ℕ) (have : Bool) (ps : Table) (r : Scan) : Type 0 where
  first :
      (k : ℕ) (p : Proc)
      → get_elem? ps k ≡ some p
      → Exited mine p
      → NoneBefore mine k ps
      → r ≡ exited (i + k)
      → Found mine i have ps r
  some_left :
      (have ≡ true) ⊎ Some mine ps → NoneAtAll mine ps → r ≡ others true → Found mine i have ps r
  none_left :
      have ≡ false
      → ((j : ℕ) (p : Proc) → get_elem? ps j ≡ some p → mine p ≡ false)
      → r ≡ others false
      → Found mine i have ps r

before_next :
    (mine : Proc → Bool) (k : ℕ) (p : Proc) (ps : Table)
    → (mine p && is_zombie p.state) ≡ false
    → NoneBefore mine k ps
    → NoneBefore mine (suc k) (p ∷ ps)
before_next mine k p ps h n zero q lt e =
    subst (λ u. (mine u && is_zombie u.state) ≡ false) (some-injective _ _ e) h
before_next mine k p ps h n (suc j) q lt e = n j q (omega arith) e

all_next :
    (mine : Proc → Bool) (p : Proc) (ps : Table)
    → (mine p && is_zombie p.state) ≡ false
    → NoneAtAll mine ps
    → NoneAtAll mine (p ∷ ps)
all_next mine p ps h n zero q e =
    subst (λ u. (mine u && is_zombie u.state) ≡ false) (some-injective _ _ e) h
all_next mine p ps h n (suc j) q e = n j q e

not_mine :
    (mine : Proc → Bool) (p : Proc) (ps : Table)
    → mine p ≡ false
    → ((j : ℕ) (q : Proc) → get_elem? ps j ≡ some q → mine q ≡ false)
    → (j : ℕ) (q : Proc) → get_elem? (p ∷ ps) j ≡ some q
    → mine q ≡ false
not_mine mine p ps h n zero q e = subst (λ u. mine u ≡ false) (some-injective _ _ e) h
not_mine mine p ps h n (suc j) q e = n j q e

-- A slot that is passed.
passes :
    (mine : Proc → Bool) (i : ℕ) (have : Bool) (p : Proc) (ps : Table) (r : Scan)
    → (mine p && is_zombie p.state) ≡ false
    → Found mine (i + 1) (have || mine p) ps r
    → Found mine i have (p ∷ ps) r
passes mine i have p ps r h (first k q e x n is) =
    let slot : i + 1 + k ≡ i + suc k = omega arith in
    first (suc k) q e x (before_next mine k p ps h n) (is ∙ ap exited slot)
passes mine i have p ps r h (some_left (inl known) n is) = elim (Bool-cases have) [
  | inl y ↦ some_left (inl y) (all_next mine p ps h n) is
  | inr m ↦ some_left (inr (0, p, refl, ground arith)) (all_next mine p ps h n) is
]
passes mine i have p ps r h (some_left (inr (j, q, e, x)) n is) =
    some_left (inr (suc j, q, e, x)) (all_next mine p ps h n) is
passes mine i have p ps r h (none_left known n is) =
    none_left (ground arith) (not_mine mine p ps (ground arith) n) is

pub scan-Found :
    (mine : Proc → Bool) (i : ℕ) (have : Bool) (ps : Table)
    → Found mine i have ps (scan mine i have ps)
unfolding scan
scan-Found mine i true [] = some_left (inl refl) (λ j p e. absurd (none-ne-some _ e)) refl
scan-Found mine i false [] = none_left refl (λ j p e. absurd (none-ne-some _ e)) refl
scan-Found mine i have (p ∷ ps) = elim (Bool-cases (mine p && is_zombie p.state)) [
  | inl y ↦
      let slot : i ≡ i + 0 = omega arith in
      first 0 p refl (ground arith, ground arith) (λ j q lt e. absurd (omega arith))
        (rw (y, scan) (ap exited slot))
  | inr n ↦
      let rest = scan-Found mine (i + 1) (have || mine p) ps in
      rw (n, scan) (passes mine i have p ps _ n rest)
]
