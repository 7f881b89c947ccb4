-- ===== src/Threads/Join.antt =====
-- P3B: xv6 Kernel threads/proc.c: how a pass of `join` ends.
use compsci537_introduction.Common.{
  ℕ, ◌+◌, ◌<◌, ◌≡◌, refl, ap, ◌∙◌, ◌⊎◌, inl, inr, Bool, true, false, not, ◌&&◌, ◌||◌, some, none,
  Option, ◌≢◌, [], get_elem?, Bool-cases, arith,
}
use mathlib.Core.Option.{some-injective, none-ne-some}
use compsci537_introduction.Sched.Table.{ProcState, Chan, is_zombie}
use compsci537_introduction.Sched.Table.States.{is_zombie-eq, is_zombie-ne}
use compsci537_introduction.Threads.Scan.{
  first, some_left, none_left, NoneBefore, NoneAtAll, scan-Found,
}
use compsci537_introduction.Threads.Slots.{SameBut, get_elem?-modify_self, get_elem?-modify_ne}
use compsci537_introduction.Threads.Kernel.{
  Proc, Table, Services, Kernel, points_to, is_thread, exited, others, scan, reap, Waited, joined,
  nobody, asleep, join_pass,
}

-- A thread of the process `p` in slot `cur`: a child with another pid and the same page table.
abbrev pub ThreadOf : ℕ → Proc → Proc → Type 0
ThreadOf cur p q = (q.parent ≡ some cur) × (q.pid ≢ p.pid) × (q.pgdir ≡ p.pgdir)

-- None of them has exited.
abbrev pub NoExited : ℕ → Proc → Table → Type 0
NoExited cur p ps =
    (j : ℕ) (q : Proc) → get_elem? ps j ≡ some q → ThreadOf cur p q → q.state ≢ ProcState.zombie

points_to-eq : (o : Option ℕ) (i : ℕ) → points_to o i ≡ true → o ≡ some i
points_to-eq none i e = absurd cc
points_to-eq (some j) i e = ap some (ground arith)

points_to-some : (o : Option ℕ) (i : ℕ) → o ≡ some i → points_to o i ≡ true
points_to-some none i e = absurd (none-ne-some _ e)
points_to-some (some j) i e = let same = some-injective _ _ e in ground arith

is_thread-ThreadOf : (cur : ℕ) (p q : Proc) → is_thread cur p q ≡ true → ThreadOf cur p q
is_thread-ThreadOf cur p q e =
    (points_to-eq q.parent cur (ground arith), ground arith, ground arith)

ThreadOf-is_thread : (cur : ℕ) (p q : Proc) → ThreadOf cur p q → is_thread cur p q ≡ true
ThreadOf-is_thread cur p q (of, other, shared) =
    let child = points_to-some q.parent cur of in ground arith

still_there :
    (cur : ℕ) (p q : Proc)
    → (is_thread cur p q && is_zombie q.state) ≡ false
    → ThreadOf cur p q
    → q.state ≢ ProcState.zombie
still_there cur p q h mine =
    let is = ThreadOf-is_thread cur p q mine in is_zombie-ne q.state (ground arith)

-- How `join`, called by the process `p` in slot `cur`, leaves the kernel.
pub data Joined (sv : Services) (cur : ℕ) (p : Proc) (k : Kernel sv.World) (r : Waited)
    (k' : Kernel sv.World) : Type 0 where
  -- the first exited thread is reaped: its slot is free, its kernel stack is freed, and its page table,
  -- which is the caller's, is not
  thread :
      (i : ℕ) (t : Proc)
      → get_elem? k.procs i ≡ some t
      → ThreadOf cur p t
      → t.state ≡ ProcState.zombie
      → ((j : ℕ) (q : Proc)
          → j < i
          → get_elem? k.procs j ≡ some q
          → ThreadOf cur p q
          → q.state ≢ ProcState.zombie)
      → r ≡ joined t.pid t.stack
      → get_elem? k'.procs i
        ≡ some (record t {
          state = ProcState.unused;
          pid = 0;
          parent = none;
          name = [];
          killed = false;
          kstack = 0;
        })
      → SameBut i k.procs k'.procs
      → k' ≡ record k { procs = k'.procs; world = sv.kfree t.kstack k.world }
      → Joined sv cur p k r k'
  -- there is no thread, or none that has exited and the caller was killed
  gives_up :
      ((j : ℕ) (q : Proc) → get_elem? k.procs j ≡ some q → ¬ ThreadOf cur p q)
        ⊎ ((p.killed ≡ true) × NoExited cur p k.procs)
      → r ≡ nobody
      → k' ≡ k
      → Joined sv cur p k r k'
  -- no thread has exited: the caller sleeps on itself
  sleeps :
      (j : ℕ) (t : Proc)
      → get_elem? k.procs j ≡ some t
      → ThreadOf cur p t
      → NoExited cur p k.procs
      → p.killed ≡ false
      → r ≡ asleep
      → ((q : Proc)
          → get_elem? k.procs cur ≡ some q
          → get_elem? k'.procs cur
            ≡ some (record q { state = ProcState.sleeping; chan = Chan.proc cur }))
      → SameBut cur k.procs k'.procs
      → k' ≡ record k { procs = k'.procs }
      → Joined sv cur p k r k'

module _ (sv : Services) (cur : ℕ) (p : Proc) (k : Kernel sv.World) where
  abbrev Ends : Type 0
  Ends = Joined sv cur p k (join_pass sv cur p k).0 (join_pass sv cur p k).1

  joins_first :
      (i : ℕ) (t : Proc)
      → get_elem? k.procs i ≡ some t
      → scan (is_thread cur p) 0 false k.procs ≡ exited i
      → is_thread cur p t ≡ true
      → is_zombie t.state ≡ true
      → NoneBefore (is_thread cur p) i k.procs
      → Ends
  unfolding join_pass
  joins_first i t here found mine gone earliest =
      rw (found, here, join_pass)
        (thread i t here (is_thread-ThreadOf cur p t mine) (is_zombie-eq t.state gone)
          (λ j q lt e. still_there cur p q (earliest j q lt e)) refl
          (get_elem?-modify_self i reap k.procs t here) (λ j. get_elem?-modify_ne i j reap k.procs)
          refl)

  joins_nobody :
      (b : Bool)
      → scan (is_thread cur p) 0 false k.procs ≡ others b
      → (not b || p.killed) ≡ true
      → ((j : ℕ) (q : Proc) → get_elem? k.procs j ≡ some q → ¬ ThreadOf cur p q)
        ⊎ ((p.killed ≡ true) × NoExited cur p k.procs)
      → Ends
  unfolding join_pass
  joins_nobody b found stops why = rw (found, stops, join_pass) (gives_up why refl refl)

  joins_asleep :
      (j : ℕ) (t : Proc)
      → scan (is_thread cur p) 0 false k.procs ≡ others true
      → get_elem? k.procs j ≡ some t
      → is_thread cur p t ≡ true
      → NoneAtAll (is_thread cur p) k.procs
      → p.killed ≡ false
      → Ends
  unfolding join_pass
  joins_asleep j t found here mine none_gone alive =
      rw (found, join_pass)
        (simp alive (
          sleeps j t here (is_thread-ThreadOf cur p t mine)
            (λ i q e. still_there cur p q (none_gone i q e)) alive refl
            (λ q. get_elem?-modify_self cur _ k.procs q) (λ i. get_elem?-modify_ne cur i _ k.procs)
            refl))

  -- A pass of `join` ends in one of three ways. If a thread of the caller, that is a child with another
  -- pid and the caller's page table, has exited, the first one in the table is reaped: its pid and its
  -- stack are returned, its kernel stack is freed and the page table is not, and its slot is unused, with
  -- the pid 0 and without a parent, a name, a kernel stack and a mark that it was killed. Else, if
  -- there is no thread or the caller was killed, it returns -1 and changes nothing. Else there is a thread,
  -- and the caller sleeps on its own address. No other slot changes, and nothing else in the kernel.
  pub join_pass-Joined : Joined sv cur p k (join_pass sv cur p k).0 (join_pass sv cur p k).1
  join_pass-Joined = elim (scan-Found (is_thread cur p) 0 false k.procs) [
    | first i t here (mine, gone) n is ↦
        let slot : 0 + i ≡ i = omega arith in joins_first i t here (is ∙ ap exited slot) mine gone n
    | some_left (inl h) n is ↦ absurd (let c : false ≡ true = h in cc)
    | some_left (inr (j, t, here, mine)) n is ↦ elim (Bool-cases p.killed) [
      | inl killed ↦
          joins_nobody true is (rw killed refl)
            (inr (killed, λ i q e. still_there cur p q (n i q e)))
      | inr alive ↦ joins_asleep j t is here mine n alive
    ]
    | none_left h n is ↦ joins_nobody false is refl (
        inl (λ j q e mine. let c = n j q e in let d = ThreadOf-is_thread cur p q mine in absurd cc))
  ]
