-- ===== src/Sched/Life.antt =====
-- P2A: Scheduling/proc.c: `allocproc`, `fork`, `exit`, `wait` and `growproc`.
pub mod Fork
pub mod Adopt
pub mod Exit
pub mod Wait
use compsci537_introduction.Common.{
  ℕ, zero, suc, ◌+◌, Bool, true, false, Option, none, some, List, [], ◌∷◌, ◌==◌, ◌&&◌, ◌||◌, not,
  if◌then◌else◌, get_elem?, take, length, ltb,
}
use compsci537_introduction.Common.Words.{u32, sign_bit, is_positive}
use compsci537_introduction.Sched.Table.{
  Proc, ProcState, Resume, Chan, Frame, Table, is_unused, is_zombie, find_slot, modify,
}
use compsci537_introduction.Sched.Sleep.{wakeup1, go_to_sleep}
use compsci537_introduction.Sched.Services.{Services}

-- The process table, with `nextpid`, `initproc` and the rest of the kernel.
pub record Kernel (W : Type 0) : Type 0 where
  pub procs : Table
  pub nextpid : ℕ
  pub initproc : ℕ
  pub world : W

-- A comparison of two `struct proc *`, the first of which may be null.
unfoldable pub points_to : Option ℕ → ℕ → Bool
points_to none j = false
points_to (some i) j = i == j

abbrev pub chan_of : Option ℕ → Chan
chan_of none = Chan.null
chan_of (some i) = Chan.proc i

-- One turn of the loop in `exit` that passes abandoned children to init, at the process `p` of
-- slot `i`.
unfoldable pub adopt_slot : ℕ → ℕ → ℕ → Proc → Table → Table
unfolding points_to modify wakeup1
adopt_slot cur init i p ps =
    if points_to p.parent cur
    then (let qs = modify i (λ q. record q { parent = some init }) ps in
        if is_zombie p.state then wakeup1 (Chan.proc init) qs else qs)
    else ps

unfoldable pub adopt : ℕ → ℕ → ℕ → Table → Table
unfolding adopt_slot
adopt cur init i ps = elim (get_elem? ps i) [ none ↦ ps | some p ↦ adopt_slot cur init i p ps ]

-- The loop, over `n` slots from slot `i` on.
unfoldable pub reparent : ℕ → ℕ → ℕ → ℕ → Table → Table
unfolding adopt
reparent cur init zero i ps = ps
reparent cur init (suc n) i ps = reparent cur init n (i + 1) (adopt cur init i ps)

-- The part of `exit` under `ptable.lock`.
unfoldable pub exit_table : ℕ → ℕ → Option ℕ → Table → Table
unfolding reparent wakeup1 modify
exit_table cur init parent ps =
    modify cur (λ q. record q { state = ProcState.zombie; context = Resume.in_sched })
      (reparent cur init (length ps) 0 (wakeup1 (chan_of parent) ps))

-- What a pass of `wait` over the table finds: an exited child, or whether there are children.
pub data Scan : Type 0 where
  exited : ℕ → Scan
  children : Bool → Scan

unfoldable pub scan : ℕ → ℕ → Bool → Table → Scan
unfolding points_to
scan cur i havekids [] = children havekids
scan cur i havekids (p ∷ ps) =
    let rest = scan cur (i + 1) (havekids || points_to p.parent cur) ps in
    if points_to p.parent cur && is_zombie p.state then exited i else rest

-- What one pass of the loop in `wait` ends with: a child's pid, -1, or a sleep.
pub data Waited : Type 0 where
  reaped : ℕ → Waited
  no_children asleep : Waited

-- What `wait` leaves of a child.
abbrev pub reap : Proc → Proc
reap p = record p {
  kstack = 0;
  pid = 0;
  parent = none;
  name = [];
  killed = false;
  state = ProcState.unused;
}

module _ (sv : Services) where
  open sv use {
    World, kalloc, kfree, copyuvm, freevm, allocuvm, deallocuvm, filedup, fileclose, idup, iput,
  }

  -- What `allocproc` makes of the slot when it has its kernel stack.
  abbrev pub prepare : ℕ → Proc → Proc
  prepare page p = record p {
    kstack = page;
    context = Resume.at_forkret;
    ticket = 1;
    boostsleft = 0;
    run_ticks = 0;
    sleep_ticks = 0;
    sleep_ticks_count = 0;
  }

  -- `allocproc` with the free slot `i`.
  unfoldable pub alloc_slot : ℕ → Kernel World → Option ℕ × Kernel World
  unfolding modify
  alloc_slot i k =
      let claimed =
        modify i (λ p. record p { state = ProcState.embryo; pid = k.nextpid }) k.procs in
      let (page, w) = kalloc k.world in
      let k' = record k { nextpid = u32 (k.nextpid + 1); world = w } in
      if page == 0
      then (
        none,
        record k' {
          procs = modify i (λ p. record p { kstack = page; state = ProcState.unused }) claimed;
        },
      )
      else (some i, record k' { procs = modify i (prepare page) claimed })

  unfoldable pub allocproc : Kernel World → Option ℕ × Kernel World
  unfolding alloc_slot find_slot
  allocproc k = elim (find_slot (λ p. is_unused p.state) 0 k.procs) [
    | none ↦ (none, k)
    | some i ↦ alloc_slot i k
  ]

  -- `if(curproc->ofile[i]) np->ofile[i] = filedup(curproc->ofile[i])` for each `i`
  unfoldable pub dup_files : List ℕ → List ℕ → World → List ℕ × World
  dup_files [] olds w = (olds, w)
  dup_files (f ∷ fs) [] w = ([], w)
  dup_files (f ∷ fs) (old ∷ olds) w =
      let (news, w') = dup_files fs olds (if f == 0 then w else filedup f w) in
      ((if f == 0 then old else f) ∷ news, w')

  -- What `fork` makes of the child's slot.
  abbrev pub become_child : ℕ → Proc → ℕ → List ℕ → Proc → Proc
  become_child cur parent pgdir files np = record np {
    pgdir = pgdir;
    sz = parent.sz;
    parent = some cur;
    tf = record parent.tf { eax = 0 };
    ticket = parent.ticket;
    ofile = files;
    cwd = parent.cwd;
    name = take 15 parent.name;
    state = ProcState.runnable;
  }

  -- `fork` of the process `parent` in slot `cur`, with slot `i` allocated for the child `np`.
  unfoldable pub fork_into : ℕ → Proc → ℕ → Proc → Kernel World → Option ℕ × Kernel World
  unfolding modify dup_files
  fork_into cur parent i np k =
      let (pgdir, w) = copyuvm parent.pgdir parent.sz k.world in
      if pgdir == 0
      then (
        none,
        record k {
          procs =
              modify i (λ p. record p { kstack = 0; pgdir = 0; state = ProcState.unused }) k.procs;
          world = kfree np.kstack w;
        },
      )
      else (let (files, w') = dup_files parent.ofile np.ofile w in
          (
            some np.pid,
            record k {
              procs = modify i (become_child cur parent pgdir files) k.procs;
              world = idup parent.cwd w';
            },
          ))

  -- `fork` behind its call of `allocproc`.
  unfoldable pub fork_slot : ℕ → Proc → Option ℕ → Kernel World → Option ℕ × Kernel World
  unfolding fork_into
  fork_slot cur parent none k = (none, k)
  fork_slot cur parent (some i) k = elim (get_elem? k.procs i) [
    | none ↦ (none, k)
    | some np ↦ fork_into cur parent i np k
  ]

  -- `fork`, called by the process `parent` in slot `cur`: the child's pid, none for -1.
  unfoldable pub fork : ℕ → Proc → Kernel World → Option ℕ × Kernel World
  unfolding allocproc fork_slot
  fork cur parent k = let (slot, k') = allocproc k in fork_slot cur parent slot k'

  -- The loop of `exit` over the open files.
  unfoldable pub close_files : List ℕ → World → List ℕ × World
  close_files [] w = ([], w)
  close_files (f ∷ fs) w =
      let (rest, w') = close_files fs (if f == 0 then w else fileclose f w) in (0 ∷ rest, w')

  -- `exit`, called by the process `p` in slot `cur`, up to its call of `sched`; none is the panic
  -- of an init that exits.
  unfoldable pub exit : ℕ → Proc → Kernel World → Option (Kernel World)
  unfolding close_files exit_table modify
  exit cur p k =
      let (files, w) = close_files p.ofile k.world in
      let closed = modify cur (λ q. record q { ofile = files; cwd = 0 }) k.procs in
      if cur == k.initproc
      then none
      else some
          (record k { procs = exit_table cur k.initproc p.parent closed; world = iput p.cwd w })

  -- `wait`, one pass of its loop: called by the process `p` in slot `cur`.
  unfoldable pub wait_pass : ℕ → Proc → Kernel World → Waited × Kernel World
  unfolding scan modify go_to_sleep
  wait_pass cur p k = elim (scan cur 0 false k.procs) [
    | exited i ↦ elim (get_elem? k.procs i) [
      | none ↦ (no_children, k)
      | some c ↦ (
        reaped c.pid,
        record k { procs = modify i reap k.procs; world = freevm c.pgdir (kfree c.kstack k.world) },
      )
    ]
    | children havekids ↦
        if not havekids || p.killed
        then (no_children, k)
        else (asleep, record k { procs = go_to_sleep cur (Chan.proc cur) k.procs })
  ]

  -- `growproc` behind its call of vm.c, which gives the new size.
  unfoldable pub grow_to : ℕ → ℕ → ℕ → Kernel World → Bool × Kernel World
  unfolding modify
  grow_to cur n sz k =
      if (sz == 0) && not (n == 0)
      then (false, k)
      else (true, record k { procs = modify cur (λ q. record q { sz = sz }) k.procs })

  -- `growproc` by the `int` `n`, called by the process `p` in slot `cur`.
  unfoldable pub growproc : ℕ → Proc → ℕ → Kernel World → Bool × Kernel World
  unfolding grow_to
  growproc cur p n k =
      let (sz, w) =
        if is_positive n
        then allocuvm p.pgdir p.sz (u32 (p.sz + n)) k.world
        else if n == 0
        then (p.sz, k.world)
        else deallocuvm p.pgdir p.sz (u32 (p.sz + n)) k.world in
      grow_to cur n sz (record k { world = w })
