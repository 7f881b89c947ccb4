-- ===== src/Sched/Steps/Pids.antt =====
-- P2A: Scheduling/proc.c: the pids of the process table.
use compsci537_introduction.Common.{
  ℕ, ◌+◌, ◌<◌, ◌≡◌, refl, sym, ◌∙◌, ◌≢◌, false, Option, some, arith, get_elem?, get_elem?_lt,
  get_elem?_total, inl, inr, ◌⊎◌, Bool-cases, ◌==◌, ==_iff, not, ◌&&◌,
}
use compsci537_introduction.Common.Words.{sign_bit}
use compsci537_introduction.Sched.Table.{Proc, ProcState, Table, is_unused, modify}
use compsci537_introduction.Sched.Table.Slots.{SameBut}
use compsci537_introduction.Sched.Services.{Services}
use compsci537_introduction.Sched.Life.{
  Kernel, exit, exit_table, close_files, wait_pass, grow_to, growproc, Waited,
}
use compsci537_introduction.Sched.Life.Fork.{Forked, full, no_stack, no_pages, child, fork-Forked}
use compsci537_introduction.Sched.Life.Wait.{Pass, reaps, childless, told_to_die, wait_pass-Pass}
use compsci537_introduction.Sched.Steps.{
  Current, Step, forks, exits, waits, grows, yields, sleeps, sleeps_ticks, resumes, wakes, kills,
  assigns, schedules, Reach, here, next,
}
use compsci537_introduction.Sched.Steps.Keeps.{
  SamePid, Keeps, Keeps-modify, wakeup1-Keeps, yield-Keeps, go_to_sleep-Keeps, sys_sleep-Keeps,
  exit_table-Keeps, tidy_up-Keeps, kill-Keeps, sys_settickets-Keeps, scheduler_turn-Keeps,
}

-- Every pid is below the next one, a slot in use has a pid, and no two slots share a pid but 0.
pub record PidsValid (nextpid : ℕ) (ps : Table) : Type 0 where
  pub started : 0 < nextpid
  pub below : (j : ℕ) (p : Proc) → get_elem? ps j ≡ some p → p.pid < nextpid
  pub used : (j : ℕ) (p : Proc) → get_elem? ps j ≡ some p → is_unused p.state ≡ false → p.pid ≢ 0
  pub distinct :
      (i j : ℕ) (p q : Proc)
      → get_elem? ps i ≡ some p
      → get_elem? ps j ≡ some q
      → p.pid ≡ q.pid
      → p.pid ≢ 0
      → i ≡ j

-- What a table which is kept holds, the old one held.
Keeps-back :
    (ps qs : Table) (j : ℕ) (q : Proc)
    → Keeps ps qs
    → get_elem? qs j ≡ some q
    → (p : Proc) × (get_elem? ps j ≡ some p) × SamePid p q
Keeps-back ps qs j q k e =
    let length_eq = k.same_length in
    let (p, f) = get_elem?_total ps j (omega (arith, get_elem?_lt qs j q e)) in
    let (r, g, s) = k.each j p f in let one : r ≡ q = cc in (p, f, rw one at s)

Keeps-PidsValid : (n : ℕ) (ps qs : Table) → Keeps ps qs → PidsValid n ps → PidsValid n qs
Keeps-PidsValid n ps qs k v = record {
  started = v.started;
  below = λ j q e. let (p, f, s) = Keeps-back ps qs j q k e in rw s.pid (v.below j p f);
  used = λ j q e u.
      let (p, f, s) = Keeps-back ps qs j q k e in rw s.pid (v.used j p f (sym s.unused ∙ u));
  distinct = λ i j p q e f same ne.
      let (p', e', s) = Keeps-back ps qs i p k e in
      let (q', f', t) = Keeps-back ps qs j q k f in
      v.distinct i j p' q' e' f' (sym s.pid ∙ same ∙ t.pid) (rw s.pid at ne);
}

-- A slot of a table with one slot changed is that slot, or as it was.
module _ (n i : ℕ) (c : Proc) (ps qs : Table) (alike : SameBut i ps qs)
    (changed : get_elem? qs i ≡ some c) (v : PidsValid n ps) where
  one_slot :
      (j : ℕ) (q : Proc)
      → get_elem? qs j ≡ some q
      → ((i ≡ j) × (q ≡ c)) ⊎ ((i ≢ j) × (get_elem? ps j ≡ some q))
  one_slot j q e = elim (Bool-cases (i == j)) [
    | inl y ↦ let one : i ≡ j = (==_iff i j).0 y in let f = rw one at changed in inl (one, cc)
    | inr n ↦ let two : i ≢ j = ground arith in inr (two, sym (alike j two) ∙ e)
  ]

  -- The changed slot gets the pid 0 and is free.
  freed-PidsValid : c.pid ≡ 0 → c.state ≡ ProcState.unused → PidsValid n qs
  freed-PidsValid zero_pid free = record {
    started = v.started;
    below = λ j q e. elim (one_slot j q e) [
      | inl (_, f) ↦ let s = v.started in rw (f, zero_pid) s
      | inr (_, f) ↦ v.below j q f
    ];
    used = λ j q e u. elim (one_slot j q e) [
      | inl (_, f) ↦ absurd (ground arith)
      | inr (_, f) ↦ v.used j q f u
    ];
    distinct = λ j l p q e f alike_pids ne. elim (one_slot j p e) [
      | inl (_, g) ↦ absurd (ground arith)
      | inr (_, g) ↦ elim (one_slot l q f) [
        | inl (_, h) ↦ absurd (ground arith)
        | inr (_, h) ↦ v.distinct j l p q g h alike_pids ne
      ]
    ];
  }

  -- The changed slot keeps its pid.
  same-PidsValid :
      (p : Proc)
      → get_elem? ps i ≡ some p
      → is_unused p.state ≡ false
      → c.pid ≡ p.pid
      → PidsValid n qs
  same-PidsValid p old in_use same = record {
    started = v.started;
    below = λ j q e. elim (one_slot j q e) [
      | inl (_, f) ↦ rw (f, same) (v.below i p old)
      | inr (_, f) ↦ v.below j q f
    ];
    used = λ j q e u. elim (one_slot j q e) [
      | inl (_, f) ↦ rw (f, same) (v.used i p old in_use)
      | inr (_, f) ↦ v.used j q f u
    ];
    distinct = λ j l q r e f alike_pids ne. elim (one_slot j q e) [
      | inl (a, g) ↦ elim (one_slot l r f) [
        | inl (b, h) ↦ sym a ∙ b
        | inr (_, h) ↦ sym a ∙ v.distinct i l p r old h (ground arith) (ground arith)
      ]
      | inr (_, g) ↦ elim (one_slot l r f) [
        | inl (b, h) ↦ v.distinct j i q p g old (ground arith) ne ∙ b
        | inr (_, h) ↦ v.distinct j l q r g h alike_pids ne
      ]
    ];
  }

  -- The changed slot gets the next pid.
  taken-PidsValid : (m : ℕ) → c.pid ≡ n → m ≡ n + 1 → PidsValid m qs
  taken-PidsValid m pid moved = record {
    started = omega arith;
    below = λ j q e. elim (one_slot j q e) [
      | inl (_, f) ↦ rw (f, pid) (omega arith)
      | inr (_, f) ↦ let b = v.below j q f in omega arith
    ];
    used = λ j q e u. elim (one_slot j q e) [
      | inl (_, f) ↦ let s = v.started in rw (f, pid) (omega arith)
      | inr (_, f) ↦ v.used j q f u
    ];
    distinct = λ j l p q e f alike_pids ne. elim (one_slot j p e) [
      | inl (a, g) ↦ elim (one_slot l q f) [
        | inl (b, h) ↦ sym a ∙ b
        | inr (_, h) ↦ let b = v.below l q h in absurd (ground arith)
      ]
      | inr (_, g) ↦ elim (one_slot l q f) [
        | inl (_, h) ↦ let b = v.below j p g in absurd (ground arith)
        | inr (_, h) ↦ v.distinct j l p q g h alike_pids ne
      ]
    ];
  }

Forked-PidsValid :
    (sv : Services) (cur : ℕ) (p : Proc) (k : Kernel sv.World) (r : Option ℕ) (k' : Kernel sv.World)
    → Forked sv cur p k r k'
    → k.nextpid + 1 < sign_bit
    → PidsValid k.nextpid k.procs
    → PidsValid k'.nextpid k'.procs
Forked-PidsValid sv cur p k r k' (full h e f) small v = rw f v
Forked-PidsValid sv cur p k r k' (no_stack i a q free page e g state pid alike moved w) small v =
    taken-PidsValid k.nextpid i q k.procs k'.procs alike g v k'.nextpid pid (omega arith)
Forked-PidsValid sv cur p k r k' (no_pages i a q free page copy e g state pid alike moved w) small
      v =
    taken-PidsValid k.nextpid i q k.procs k'.procs alike g v k'.nextpid pid (omega arith)
Forked-PidsValid sv cur p k r k' (child i a c free page copy e g is stack table alike moved) small
      v =
    taken-PidsValid k.nextpid i c k.procs k'.procs alike g v k'.nextpid is.own_pid (omega arith)

Pass-PidsValid :
    (sv : Services) (n cur : ℕ) (p : Proc) (k : Kernel sv.World) (r : Waited) (k' : Kernel sv.World)
    → Pass sv cur p k r k'
    → Current cur p k.procs
    → PidsValid n k.procs
    → PidsValid n k'.procs
Pass-PidsValid sv n cur p k r k' (reaps i c old dead first e at alike w) current v =
    freed-PidsValid n i _ k.procs k'.procs alike at v refl refl
Pass-PidsValid sv n cur p k r k' (childless h e g) current v = rw g v
Pass-PidsValid sv n cur p k r k' (told_to_die h d e g) current v = rw g v
Pass-PidsValid sv n cur p k r k' (Pass.sleeps j c h e is a f at alike w) current v =
    same-PidsValid n cur _ k.procs k'.procs alike (at p current.here) v p current.here current.used
      refl

abbrev pub KernelValid : {W : Type 0} → Kernel W → Type 0
KernelValid k = PidsValid k.nextpid k.procs

module _ (sv : Services) where
  open sv use {World}

  exit-KernelValid :
      (cur : ℕ) (p : Proc) (k k' : Kernel World)
      → Current cur p k.procs
      → exit sv cur p k ≡ some k'
      → KernelValid k
      → KernelValid k'
  unfolding exit
  exit-KernelValid cur p k k' c e v =
      let f = λ (q : Proc). record q { ofile = (close_files sv p.ofile k.world).0; cwd = 0 } in
      let done : Kernel World = record k {
        procs = exit_table cur k.initproc p.parent (modify cur f k.procs);
        world = sv.iput p.cwd (close_files sv p.ofile k.world).1;
      } in
      let one : k' ≡ done = ground arith in
      rw one (
        Keeps-PidsValid k.nextpid k.procs done.procs
          (exit_table-Keeps k.procs cur p c.here c.used k.initproc p.parent f
            (λ q. record { pid = refl; unused = refl }))
          v)

  grow_to-KernelValid :
      (cur n sz : ℕ) (k : Kernel World) → KernelValid k → KernelValid (grow_to sv cur n sz k).1
  unfolding grow_to
  grow_to-KernelValid cur n sz k v = elim (Bool-cases ((sz == 0) && not (n == 0))) [
    | inl y ↦ rw y v
    | inr m ↦ rw m (
        Keeps-PidsValid k.nextpid k.procs _
          (Keeps-modify cur (λ q. record q { sz = sz }) k.procs
            (λ q e. record { pid = refl; unused = refl }))
          v)
  ]

  growproc-KernelValid :
      (cur n : ℕ) (p : Proc) (k : Kernel World)
      → KernelValid k
      → KernelValid (growproc sv cur p n k).1
  unfolding growproc
  growproc-KernelValid cur n p k v = grow_to-KernelValid cur n _ _ v

  wait_pass_nextpid :
      (cur : ℕ) (p : Proc) (k : Kernel World) → (wait_pass sv cur p k).1.nextpid ≡ k.nextpid
  unfolding wait_pass
  wait_pass_nextpid cur p k = ground arith

  Step-KernelValid : {k k' : Kernel World} → Step sv k k' → KernelValid k → KernelValid k'
  Step-KernelValid {k} (forks cur p c small) v =
      Forked-PidsValid sv cur p k _ _ (fork-Forked sv cur p k) small v
  Step-KernelValid {k} (exits cur p k' c e) v = exit-KernelValid cur p k k' c e v
  Step-KernelValid {k} (waits cur p c) v =
      rw wait_pass_nextpid (Pass-PidsValid sv k.nextpid cur p k _ _ (wait_pass-Pass sv cur p k) c v)
  Step-KernelValid {k} (grows cur n p c) v = growproc-KernelValid cur n p k v
  Step-KernelValid {k} (yields cur p c) v =
      Keeps-PidsValid k.nextpid _ _ (yield-Keeps k.procs cur p c.here c.used) v
  Step-KernelValid {k} (sleeps cur p chan c) v =
      Keeps-PidsValid k.nextpid _ _ (go_to_sleep-Keeps k.procs cur p c.here c.used chan) v
  Step-KernelValid {k} (sleeps_ticks cur n p c) v =
      Keeps-PidsValid k.nextpid _ _ (sys_sleep-Keeps k.procs cur p c.here c.used n) v
  Step-KernelValid {k} (resumes cur) v = Keeps-PidsValid k.nextpid _ _ (tidy_up-Keeps cur k.procs) v
  Step-KernelValid {k} (wakes chan) v = Keeps-PidsValid k.nextpid _ _ (wakeup1-Keeps chan k.procs) v
  Step-KernelValid {k} (kills pid ps e) v =
      Keeps-PidsValid k.nextpid _ _ (kill-Keeps pid k.procs ps e) v
  Step-KernelValid {k} (assigns pid n ps e) v =
      Keeps-PidsValid k.nextpid _ _ (sys_settickets-Keeps pid n k.procs ps e) v
  Step-KernelValid {k} (schedules rseed) v =
      Keeps-PidsValid k.nextpid _ _ (scheduler_turn-Keeps rseed k.procs) v

  -- In every kernel that operations of proc.c reach, in any order and by any processes, every slot
  -- in use has a pid, no two slots have the same pid, and every pid is below the next one, if that
  -- holds at the start and the pids do not pass the largest `int`.
  pub Reach-KernelValid : {k k' : Kernel World} → KernelValid k → Reach sv k k' → KernelValid k'
  Reach-KernelValid v here = v
  Reach-KernelValid v (next r s) = Step-KernelValid s (Reach-KernelValid v r)
