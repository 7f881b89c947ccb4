-- ===== src/Sched/Life/Exit.antt =====
-- P2A: Scheduling/proc.c: what `exit` leaves behind, and what `wait` finds.
use compsci537_introduction.Common.{
  ℕ, ◌+◌, ◌<◌, ◌≡◌, refl, ◌∙◌, ◌≢◌, false, Option, some, arith, get_elem?, get_elem?-map,
  get_elem?_lt, ◌==◌, length, length-map,
}
use compsci537_introduction.Common.Words.{sign_bit}
use compsci537_introduction.Sched.Table.{
  Proc, ProcState, Resume, Chan, chan_eq, Table, is_unused, is_sleeping, is_zombie, modify,
}
use compsci537_introduction.Sched.Table.Slots.{get_elem?-modify_self, get_elem?-modify_ne}
use compsci537_introduction.Sched.Sleep.{wake_one, wakeup1}
use compsci537_introduction.Sched.Services.{Services}
use compsci537_introduction.Sched.Life.Adopt.{heir, Later, wake_one-Later, reparent-within}
use compsci537_introduction.Sched.Life.{Kernel, chan_of, close_files, exit_table, exit}

wakeup1-Later :
    (c : Chan) (j : ℕ) (ps : Table) (p : Proc)
    → get_elem? ps j ≡ some p
    → get_elem? (wakeup1 c ps) j ≡ some (wake_one c p)
unfolding wakeup1
wakeup1-Later c j ps p e = get_elem?-map (wake_one c) ps j p e

length-wakeup1 : (c : Chan) (ps : Table) → length (wakeup1 c ps) ≡ length ps
unfolding wakeup1
length-wakeup1 c ps = length-map (wake_one c) ps

-- What `exit` by slot `cur` does to another slot.
exit_table-other :
    (cur init : ℕ) (o : Option ℕ) (j : ℕ) (ps : Table) (p : Proc)
    → cur ≢ j
    → get_elem? ps j ≡ some p
    → (q : Proc) × (get_elem? (exit_table cur init o ps) j ≡ some q)
      × Later (length ps) (heir cur init p.parent) (wake_one (chan_of o) p) q
unfolding exit_table wake_one
exit_table-other cur init o j ps p h e =
    let woken = wakeup1 (chan_of o) ps in
    let a = wake_one-Later (chan_of o) p in
    let inside : j < 0 + length ps = omega (arith, get_elem?_lt ps j p e) in
    let (q, f, b) =
      reparent-within cur init (length ps) 0 j woken (wake_one (chan_of o) p) (omega arith) inside
        (wakeup1-Later (chan_of o) j ps p e) in
    (q, get_elem?-modify_ne cur j _ _ h ∙ f, rw a.parent at b)

exit_table_self :
    (cur init : ℕ) (o : Option ℕ) (ps : Table) (p : Proc)
    → get_elem? ps cur ≡ some p
    → (q : Proc) × (get_elem? (exit_table cur init o ps) cur ≡ some q)
      × (q.state ≡ ProcState.zombie)
      × (q.pid ≡ p.pid)
      × (q.parent ≡ heir cur init p.parent)
unfolding exit_table
exit_table_self cur init o ps p e =
    let woken = wakeup1 (chan_of o) ps in
    let a = wake_one-Later (chan_of o) p in
    let inside : cur < 0 + length ps = omega (arith, get_elem?_lt ps cur p e) in
    let (q, f, b) =
      reparent-within cur init (length ps) 0 cur woken (wake_one (chan_of o) p) (omega arith) inside
        (wakeup1-Later (chan_of o) cur ps p e) in
    (
      record q { state = ProcState.zombie; context = Resume.in_sched },
      get_elem?-modify_self cur _ _ q f,
      refl,
      b.pid ∙ a.pid,
      rw a.parent at b.parent,
    )

-- A process that waits for a child, as `wait` leaves it: it sleeps on itself.
pub record IsWaiting (m : ℕ) (q : Proc) : Type 0 where
  pub asleep : q.state ≡ ProcState.sleeping
  pub on_itself : q.chan ≡ Chan.proc m
  pub no_ticks : q.sleep_ticks ≡ 0
  pub few : q.sleep_ticks_count + 1 < sign_bit

wake_one-IsWaiting :
    (m : ℕ) (q : Proc) → IsWaiting m q → is_sleeping (wake_one (Chan.proc m) q).state ≡ false
unfolding wake_one chan_eq
wake_one-IsWaiting m q w = rw (w.asleep, w.on_itself, w.no_ticks) (ground arith)

-- What the exit of the process `p` of slot `cur` leaves.
pub record Exited (cur init : ℕ) (p : Proc) (ps qs : Table) : Type 0 where
  pub gone :
      (c : Proc) × (get_elem? qs cur ≡ some c)
      × (c.state ≡ ProcState.zombie)
      × (c.pid ≡ p.pid)
      × (c.parent ≡ heir cur init p.parent)
  pub adopted :
      (j : ℕ) (q : Proc)
      → cur ≢ j
      → get_elem? ps j ≡ some q
      → (r : Proc) × (get_elem? qs j ≡ some r)
        × (r.parent ≡ heir cur init q.parent)
        × (r.pid ≡ q.pid)
        × (is_unused r.state ≡ is_unused q.state)
        × (is_zombie r.state ≡ is_zombie q.state)
  pub parent_awake :
      (m : ℕ) (q : Proc)
      → cur ≢ m
      → p.parent ≡ some m
      → get_elem? ps m ≡ some q
      → IsWaiting m q
      → (r : Proc) × (get_elem? qs m ≡ some r) × (is_sleeping r.state ≡ false)

-- The same for a table `closed` in which only the exiting process differs from `ps`.
exit_table-Exited :
    (cur init : ℕ) (p p' : Proc) (ps closed : Table)
    → get_elem? closed cur ≡ some p'
    → p'.pid ≡ p.pid
    → p'.parent ≡ p.parent
    → ((j : ℕ) → cur ≢ j → get_elem? closed j ≡ get_elem? ps j)
    → Exited cur init p ps (exit_table cur init p.parent closed)
exit_table-Exited cur init p p' ps closed e pid parent same = record {
  gone =
      let (c, f, z, i, o) = exit_table_self cur init p.parent closed p' e in
      (c, f, z, i ∙ pid, rw parent at o);
  adopted = λ j q h f.
      let (r, g, l) = exit_table-other cur init p.parent j closed q h (same j h ∙ f) in
      let a = wake_one-Later (chan_of p.parent) q in
      (r, g, l.parent, l.pid ∙ a.pid, l.unused ∙ a.unused, l.zombie ∙ a.zombie);
  parent_awake = λ m q h o f w.
      let (r, g, l) = exit_table-other cur init p.parent m closed q h (same m h ∙ f) in
      let awake = wake_one-IsWaiting m q w in
      let l' = rw o at l in (r, g, ground (arith, l'.still, awake));
}

module _ (sv : Services) where
  open sv use {World}

  -- `exit` by the process `p` of slot `cur`, which is not init, succeeds. It leaves the process a
  -- zombie with its pid; no pid changes; init becomes the parent of its children and every other
  -- parent stays; no slot but its own becomes a zombie, and none is freed or taken; and a parent
  -- that waits for a child is no longer asleep.
  pub exit-Exited :
      (cur : ℕ) (p : Proc) (k : Kernel World)
      → get_elem? k.procs cur ≡ some p
      → cur ≢ k.initproc
      → (k' : Kernel World) × (exit sv cur p k ≡ some k') × Exited cur k.initproc p k.procs k'.procs
  unfolding exit
  exit-Exited cur p k e h =
      let f = λ (q : Proc). record q { ofile = (close_files sv p.ofile k.world).0; cwd = 0 } in
      let closed = modify cur f k.procs in
      let other : (cur == k.initproc) ≡ false = ground arith in
      let done : Kernel World = record k {
        procs = exit_table cur k.initproc p.parent closed;
        world = sv.iput p.cwd (close_files sv p.ofile k.world).1;
      } in
      (
        done,
        rw other,
        exit_table-Exited cur k.initproc p (f p) k.procs closed
            (get_elem?-modify_self cur f k.procs p e) refl refl
            (λ j ne. get_elem?-modify_ne cur j f k.procs ne),
      )
