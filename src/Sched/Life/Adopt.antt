-- ===== src/Sched/Life/Adopt.antt =====
-- P2A: Scheduling/proc.c: the loop of `exit` that passes children to init.
use compsci537_introduction.Common.{
  ℕ, zero, suc, ◌+◌, ◌≤◌, ◌<◌, ◌≡◌, ◌∙◌, ◌≢◌, true, false, Bool, Option, some, arith, get_elem?,
  get_elem?-map, inl, inr, Bool-cases, Option-cases, ◌==◌, ==_iff, if◌then◌else◌,
}
use compsci537_introduction.Sched.Table.{
  Proc, Chan, Table, is_unused, is_sleeping, is_zombie, modify,
}
use compsci537_introduction.Sched.Table.Slots.{get_elem?-modify_self, get_elem?-modify_ne}
use compsci537_introduction.Sched.Sleep.{wake_one, wakeup1}
use compsci537_introduction.Sched.Life.{points_to, adopt_slot, adopt, reparent}

-- What the loop of `exit` makes of a parent pointer.
abbrev pub heir : ℕ → ℕ → Option ℕ → Option ℕ
heir cur init o = if points_to o cur then some init else o

-- `q` is `p` after calls of `wakeup1`, at most `n` of them, and a change of parent to `o`.
pub record Later (n : ℕ) (o : Option ℕ) (p q : Proc) : Type 0 where
  pub parent : q.parent ≡ o
  pub pid : q.pid ≡ p.pid
  pub chan : q.chan ≡ p.chan
  pub unused : is_unused q.state ≡ is_unused p.state
  pub zombie : is_zombie q.state ≡ is_zombie p.state
  -- asleep only if it was, and then with few more counts
  pub still :
      is_sleeping q.state ≡ true
      → (is_sleeping p.state ≡ true)
        × (q.sleep_ticks ≡ p.sleep_ticks)
        × (q.sleep_ticks_count ≤ p.sleep_ticks_count + n)

pub wake_one-Later : (c : Chan) (p : Proc) → Later 1 p.parent p (wake_one c p)
unfolding wake_one
wake_one-Later c p = ground arith

Later-trans :
    (m n l : ℕ) (o o' : Option ℕ) (p q r : Proc)
    → Later m o p q
    → Later n o' q r
    → l ≡ m + n
    → Later l o' p r
Later-trans m n l o o' p q r a b e = ground (arith, a.still, b.still)

Later-refl : (p : Proc) → Later 0 p.parent p p
Later-refl p = ground arith

Later-weaken : (m n : ℕ) (o : Option ℕ) (p q : Proc) → Later m o p q → m ≤ n → Later n o p q
Later-weaken m n o p q a h = ground (arith, a.still)

-- What `wakeup1` under a condition does to slot `j`.
rouse-Later :
    (b : Bool) (c : Chan) (j : ℕ) (ps : Table) (p : Proc)
    → get_elem? ps j ≡ some p
    → (q : Proc) × (get_elem? (if b then wakeup1 c ps else ps) j ≡ some q) × Later 1 p.parent p q
unfolding wakeup1
rouse-Later true c j ps p e =
    (wake_one c p, get_elem?-map (wake_one c) ps j p e, wake_one-Later c p)
rouse-Later false c j ps p e = (p, e, Later-weaken 0 1 p.parent p p (Later-refl p) (omega arith))

-- A change of parent alone.
reparented-Later :
    (o : Option ℕ) (p q : Proc) → Later 1 o (record p { parent = o }) q → Later 1 o p q
reparented-Later o p q a = ground (arith, a.still)

adopt_slot_self :
    (cur init j : ℕ) (ps : Table) (p : Proc)
    → get_elem? ps j ≡ some p
    → (q : Proc) × (get_elem? (adopt_slot cur init j p ps) j ≡ some q)
      × Later 1 (heir cur init p.parent) p q
unfolding adopt_slot
adopt_slot_self cur init j ps p e = elim (Bool-cases (points_to p.parent cur)) [
  | inr n ↦ rw n (p, e, Later-weaken 0 1 p.parent p p (Later-refl p) (omega arith))
  | inl y ↦
      let (q, f, l) =
        rouse-Later (is_zombie p.state) (Chan.proc init) j
          (modify j (λ r. record r { parent = some init }) ps) (record p { parent = some init })
          (get_elem?-modify_self j _ ps p e) in
      rw y (q, f, reparented-Later (some init) p q l)
]

adopt_slot-other :
    (cur init i j : ℕ) (ps : Table) (r p : Proc)
    → i ≢ j
    → get_elem? ps j ≡ some p
    → (q : Proc) × (get_elem? (adopt_slot cur init i r ps) j ≡ some q) × Later 1 p.parent p q
unfolding adopt_slot
adopt_slot-other cur init i j ps r p h e = elim (Bool-cases (points_to r.parent cur)) [
  | inr n ↦ rw n (p, e, Later-weaken 0 1 p.parent p p (Later-refl p) (omega arith))
  | inl y ↦ rw y (
      rouse-Later (is_zombie r.state) (Chan.proc init) j
        (modify i (λ q. record q { parent = some init }) ps) p (get_elem?-modify_ne i j _ ps h ∙ e))
]

-- What one turn of the loop does to the slot of the turn, and to another slot.
adopt_self :
    (cur init j : ℕ) (ps : Table) (p : Proc)
    → get_elem? ps j ≡ some p
    → (q : Proc) × (get_elem? (adopt cur init j ps) j ≡ some q)
      × Later 1 (heir cur init p.parent) p q
unfolding adopt
adopt_self cur init j ps p e = rw (e, adopt) (adopt_slot_self cur init j ps p e)

adopt-other :
    (cur init i j : ℕ) (ps : Table) (p : Proc)
    → i ≢ j
    → get_elem? ps j ≡ some p
    → (q : Proc) × (get_elem? (adopt cur init i ps) j ≡ some q) × Later 1 p.parent p q
unfolding adopt
adopt-other cur init i j ps p h e = elim (Option-cases (get_elem? ps i)) [
  | inl n ↦ rw (n, adopt) (p, e, Later-weaken 0 1 p.parent p p (Later-refl p) (omega arith))
  | inr (r, s) ↦ rw (s, adopt) (adopt_slot-other cur init i j ps r p h e)
]

-- The loop leaves slots before its range with their parents,
reparent-below :
    (cur init n i j : ℕ) (ps : Table) (p : Proc)
    → j < i
    → get_elem? ps j ≡ some p
    → (q : Proc) × (get_elem? (reparent cur init n i ps) j ≡ some q) × Later n p.parent p q
unfolding reparent
reparent-below cur init zero i j ps p h e = (p, e, Later-refl p)
reparent-below cur init (suc n) i j ps p h e =
    let (q, f, a) = adopt-other cur init i j ps p (omega arith) e in
    let (r, g, b) = reparent-below cur init n (i + 1) j (adopt cur init i ps) q (omega arith) f in
    (r, g, Later-trans 1 n (suc n) p.parent p.parent p q r a (rw a.parent at b) (omega arith))

-- and gives init the children of `cur` in its range.
pub reparent-within :
    (cur init n i j : ℕ) (ps : Table) (p : Proc)
    → i ≤ j
    → j < i + n
    → get_elem? ps j ≡ some p
    → (q : Proc) × (get_elem? (reparent cur init n i ps) j ≡ some q)
      × Later n (heir cur init p.parent) p q
unfolding reparent
reparent-within cur init zero i j ps p h k e = absurd (omega arith)
reparent-within cur init (suc n) i j ps p h k e = elim (Bool-cases (i == j)) [
  | inl y ↦
      let same : i ≡ j = (==_iff i j).0 y in
      let (q, f, a) = adopt_self cur init j ps p e in
      let (r, g, b) = reparent-below cur init n (j + 1) j (adopt cur init j ps) q (omega arith) f in
      rw same (r, g, Later-trans 1 n (suc n) _ _ p q r a (rw a.parent at b) (omega arith))
  | inr y ↦
      let (q, f, a) = adopt-other cur init i j ps p (ground arith) e in
      let (r, g, b) =
        reparent-within cur init n (i + 1) j (adopt cur init i ps) q (ground arith) (omega arith)
          f in
      (r, g, Later-trans 1 n (suc n) p.parent _ p q r a (rw a.parent at b) (omega arith))
]
