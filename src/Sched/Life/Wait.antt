-- ===== src/Sched/Life/Wait.antt =====
-- P2A: Scheduling/proc.c: what a pass of `wait` over the table ends with.
use compsci537_introduction.Common.{
  ℕ, zero, suc, ◌+◌, ◌≡◌, refl, true, false, Bool, some, [], ◌∷◌, arith, get_elem?, inl, inr,
  Bool-cases, ◌&&◌, ◌||◌, Option, none, ap, ◌<◌, ◌≢◌,
}
use mathlib.Core.Option.{some-injective, none-ne-some}
use compsci537_introduction.Sched.Table.{Proc, ProcState, Chan, Resume, Table, is_zombie}
use compsci537_introduction.Sched.Table.States.{is_zombie-eq, is_zombie-ne}
use compsci537_introduction.Sched.Table.Slots.{
  First, NoneOf, found, missing, Search-slots, SameBut, get_elem?-modify_self, get_elem?-modify_ne,
}
use compsci537_introduction.Sched.Services.{Services}
use compsci537_introduction.Sched.Sleep.{go_to_sleep}
use compsci537_introduction.Sched.Life.{
  Kernel, points_to, exited, children, scan, Waited, reaped, no_children, asleep, reap, wait_pass,
}

abbrev pub is_child : ℕ → Proc → Bool
is_child cur p = points_to p.parent cur

abbrev pub is_dead_child : ℕ → Proc → Bool
is_dead_child cur p = points_to p.parent cur && is_zombie p.state

scan-found :
    (cur n m : ℕ) (b : Bool) (ps : Table) (i : ℕ) (p : Proc)
    → First (is_dead_child cur) ps i p
    → m ≡ n + i
    → scan cur n b ps ≡ exited m
unfolding scan
scan-found cur n m b [] i p h q = let e = h.here in cc
scan-found cur n m b (r ∷ ps) zero p h q = let e = h.here in let t = h.passes in ground arith
scan-found cur n m b (r ∷ ps) (suc i) p h q =
    let miss : is_dead_child cur r ≡ false = h.earlier 0 r (omega arith) refl in
    let rest : First (is_dead_child cur) ps i p = record {
      here = h.here;
      passes = h.passes;
      earlier = λ j r l k. h.earlier (suc j) r (omega arith) k;
    } in
    rw miss (scan-found cur (n + 1) m (b || points_to r.parent cur) ps i p rest (omega arith))

-- Whether some slot holds a child.
any_child : ℕ → Table → Bool
any_child cur [] = false
any_child cur (p ∷ ps) = points_to p.parent cur || any_child cur ps

scan-missing :
    (cur n : ℕ) (b : Bool) (ps : Table)
    → NoneOf (is_dead_child cur) ps
    → scan cur n b ps ≡ children (b || any_child cur ps)
unfolding scan any_child
scan-missing cur n b [] h = ground arith
scan-missing cur n b (r ∷ ps) h =
    let miss : is_dead_child cur r ≡ false = h 0 r refl in
    rw (miss, scan-missing cur (n + 1) (b || points_to r.parent cur) ps (λ j q k. h (suc j) q k))
      (ground arith)

any_child-none : (cur : ℕ) (ps : Table) → any_child cur ps ≡ false → NoneOf (is_child cur) ps
unfolding any_child
any_child-none cur [] h j q e = cc
any_child-none cur (p ∷ ps) h zero q e = ground arith
any_child-none cur (p ∷ ps) h (suc j) q e = any_child-none cur ps (ground arith) j q e

any_child-some :
    (cur : ℕ) (ps : Table)
    → any_child cur ps ≡ true
    → (j : ℕ) × (q : Proc) × (get_elem? ps j ≡ some q) × (is_child cur q ≡ true)
unfolding any_child
any_child-some cur [] h = cc
any_child-some cur (p ∷ ps) h = elim (Bool-cases (points_to p.parent cur)) [
  | inl y ↦ (0, p, refl, y)
  | inr n ↦ let (j, q, e, c) = any_child-some cur ps (rw n at h) in (suc j, q, e, c)
]

-- A child of the process in slot `cur` that has exited.
abbrev pub DeadChild : ℕ → Proc → Type 0
DeadChild cur q = (q.parent ≡ some cur) × (q.state ≡ ProcState.zombie)

points_to-eq : (o : Option ℕ) (i : ℕ) → points_to o i ≡ true → o ≡ some i
unfolding points_to
points_to-eq none i e = absurd cc
points_to-eq (some j) i e = ap some (ground arith)

points_to-ne : (o : Option ℕ) (i : ℕ) → points_to o i ≡ false → o ≢ some i
unfolding points_to
points_to-ne none i e = λ h. none-ne-some _ h
points_to-ne (some j) i e = λ h. let same = some-injective _ _ h in ground arith

is_dead_child-DeadChild : (cur : ℕ) (q : Proc) → is_dead_child cur q ≡ true → DeadChild cur q
is_dead_child-DeadChild cur q e =
    (points_to-eq q.parent cur (ground arith), is_zombie-eq q.state (ground arith))

is_dead_child_ne : (cur : ℕ) (q : Proc) → is_dead_child cur q ≡ false → ¬ DeadChild cur q
is_dead_child_ne cur q e (of, gone) = elim (Bool-cases (points_to q.parent cur)) [
  | inl y ↦ is_zombie-ne q.state (ground arith) gone
  | inr n ↦ points_to-ne q.parent cur n of
]

-- No child has exited.
abbrev pub NoDead : ℕ → Table → Type 0
NoDead cur ps = (j : ℕ) (q : Proc) → get_elem? ps j ≡ some q → ¬ DeadChild cur q

NoneOf-NoDead : (cur : ℕ) (ps : Table) → NoneOf (is_dead_child cur) ps → NoDead cur ps
NoneOf-NoDead cur ps h j q e = is_dead_child_ne cur q (h j q e)

-- How one pass of `wait` by the process `p` of slot `cur` ends.
pub data Pass (sv : Services) (cur : ℕ) (p : Proc) (k : Kernel sv.World) (r : Waited)
    (k' : Kernel sv.World) : Type 0 where
  -- the first child that has exited is reaped, and its kernel stack and its page table are freed
  reaps :
      (i : ℕ) (c : Proc)
      → get_elem? k.procs i ≡ some c
      → DeadChild cur c
      → ((j : ℕ) (q : Proc) → j < i → get_elem? k.procs j ≡ some q → ¬ DeadChild cur q)
      → r ≡ reaped c.pid
      → get_elem? k'.procs i
        ≡ some (record c {
          state = ProcState.unused;
          pid = 0;
          parent = none;
          name = [];
          killed = false;
          kstack = 0;
        })
      → SameBut i k.procs k'.procs
      → k' ≡ record k { procs = k'.procs; world = sv.freevm c.pgdir (sv.kfree c.kstack k.world) }
      → Pass sv cur p k r k'
  childless :
      ((j : ℕ) (q : Proc) → get_elem? k.procs j ≡ some q → q.parent ≢ some cur)
      → r ≡ no_children
      → k' ≡ k
      → Pass sv cur p k r k'
  told_to_die :
      NoDead cur k.procs → p.killed ≡ true → r ≡ no_children → k' ≡ k → Pass sv cur p k r k'
  -- the caller sleeps on its own address
  sleeps :
      (j : ℕ) (c : Proc)
      → NoDead cur k.procs
      → get_elem? k.procs j ≡ some c
      → c.parent ≡ some cur
      → p.killed ≡ false
      → r ≡ asleep
      → ((q : Proc)
          → get_elem? k.procs cur ≡ some q
          → get_elem? k'.procs cur
            ≡ some (record q {
              state = ProcState.sleeping;
              chan = Chan.proc cur;
              context = Resume.in_sched;
            }))
      → SameBut cur k.procs k'.procs
      → k' ≡ record k { procs = k'.procs }
      → Pass sv cur p k r k'

module _ (sv : Services) where
  open sv use {World}

  module _ (cur : ℕ) (p : Proc) (k : Kernel World) where
    abbrev Outcome : Type 0
    Outcome = Pass sv cur p k (wait_pass sv cur p k).0 (wait_pass sv cur p k).1

    wait_pass-reaps : (i : ℕ) (c : Proc) → First (is_dead_child cur) k.procs i c → Outcome
    unfolding wait_pass
    wait_pass-reaps i c f =
        rw (scan-found cur 0 i false k.procs i c f (omega arith), f.here, wait_pass)
          (reaps i c f.here (is_dead_child-DeadChild cur c f.passes)
            (λ j q lt e. is_dead_child_ne cur q (f.earlier j q lt e)) refl
            (get_elem?-modify_self i reap k.procs c f.here)
            (λ j. get_elem?-modify_ne i j reap k.procs) refl)

    wait_pass-sleeps :
        (j : ℕ) (c : Proc)
        → NoneOf (is_dead_child cur) k.procs
        → any_child cur k.procs ≡ true
        → get_elem? k.procs j ≡ some c
        → is_child cur c ≡ true
        → p.killed ≡ false
        → Outcome
    unfolding wait_pass go_to_sleep
    wait_pass-sleeps j c h y e is a =
        rw (scan-missing cur 0 false k.procs h, y, wait_pass)
          (simp a (
            sleeps j c (NoneOf-NoDead cur k.procs h) e (points_to-eq c.parent cur is) a refl
              (λ q. get_elem?-modify_self cur _ k.procs q)
              (λ i. get_elem?-modify_ne cur i _ k.procs) refl))

    wait_pass-alive : NoneOf (is_dead_child cur) k.procs → Outcome
    unfolding wait_pass
    wait_pass-alive h = elim (Bool-cases (any_child cur k.procs)) [
      | inr n ↦
          rw (scan-missing cur 0 false k.procs h, n, wait_pass)
            (childless (λ j q e. points_to-ne q.parent cur (any_child-none cur k.procs n j q e))
              refl refl)
      | inl y ↦
          let (j, c, e, is) = any_child-some cur k.procs y in
          elim (Bool-cases p.killed) [
            | inl d ↦
                rw (scan-missing cur 0 false k.procs h, y, wait_pass)
                  (simp d (told_to_die (NoneOf-NoDead cur k.procs h) d refl refl))
            | inr a ↦ wait_pass-sleeps j c h y e is a
          ]
    ]

  -- A pass of `wait` over the table reaps the first child that is a zombie: it returns the child's
  -- pid, frees the child's kernel stack and page table, and leaves its slot unused, with the pid 0 and
  -- without a parent, a name, a kernel stack and a mark that it was killed. With no such child it
  -- returns -1 and changes nothing, if the caller has no child or has been killed. Else there is a child, and the
  -- caller sleeps on its own address. No other slot changes, and nothing else in the kernel.
  pub wait_pass-Pass :
      (cur : ℕ) (p : Proc) (k : Kernel World)
      → Pass sv cur p k (wait_pass sv cur p k).0 (wait_pass sv cur p k).1
  wait_pass-Pass cur p k = elim (Search-slots (is_dead_child cur) k.procs) [
    | found i c f ↦ wait_pass-reaps cur p k i c f
    | missing h ↦ wait_pass-alive cur p k h
  ]
