-- ===== src/Threads/Kernel.antt =====
-- P3B: xv6 Kernel threads/proc.c: `clone`, `wait`, `join` and `growproc`. A `struct proc *` is the
-- slot's index in the table, and a page table a number.
use compsci537_introduction.Common.{
  ℕ, zero, suc, ◌+◌, ◌-◌, ◌%◌, Bool, true, false, Option, none, some, List, [], ◌∷◌, ◌==◌, ◌&&◌,
  ◌||◌, not, ltb, if◌then◌else◌, get_elem?, take,
}
use compsci537_introduction.Common.Maps.{update}
use compsci537_introduction.Common.Words.{u32, u32_mod, is_positive}
use compsci537_introduction.Sched.Table.{ProcState, Chan, is_unused, is_zombie}

-- A trap frame: the registers that `clone` sets, and the others.
pub record Frame : Type 0 where
  pub eax : ℕ
  pub eip : ℕ
  pub esp : ℕ
  pub ebp : ℕ
  pub others : List ℕ

-- `struct proc`, with 0 for a null pointer to a page or a file.
pub record Proc : Type 0 where
  pub sz : ℕ
  pub pgdir : ℕ
  pub kstack : ℕ
  pub state : ProcState
  pub pid : ℕ
  pub parent : Option ℕ
  pub tf : Frame
  pub chan : Chan
  pub killed : Bool
  pub ofile : List ℕ
  pub cwd : ℕ
  pub name : List ℕ
  pub stack : ℕ

abbrev pub Table : Type 0
Table = List Proc

-- What proc.c calls in kalloc.c, vm.c, file.c and fs.c, and the state of these; a size of 0 and a page
-- 0 are failures.
pub record Services : Type 1 where
  pub World : Type 0
  pub kalloc : World → ℕ × World
  pub kfree : ℕ → World → World
  pub freevm : ℕ → World → World
  pub allocuvm : ℕ → ℕ → ℕ → World → ℕ × World
  pub deallocuvm : ℕ → ℕ → ℕ → World → ℕ × World
  pub filedup : ℕ → World → World
  pub idup : ℕ → World → World

-- The process table, `nextpid`, the words of user memory by page table and address, and the rest.
pub record Kernel (W : Type 0) : Type 0 where
  pub procs : Table
  pub nextpid : ℕ
  pub memory : ℕ → ℕ → ℕ
  pub world : W

-- Writes through a pointer to slot `i`.
unfoldable pub modify : ℕ → (Proc → Proc) → Table → Table
modify i f [] = []
modify zero f (p ∷ ps) = f p ∷ ps
modify (suc i) f (p ∷ ps) = p ∷ modify i f ps

-- The index of the first slot that passes the test, from slot `i` on.
unfoldable pub find_slot : (Proc → Bool) → ℕ → Table → Option ℕ
find_slot test i [] = none
find_slot test i (p ∷ ps) = let rest = find_slot test (i + 1) ps in if test p then some i else rest

-- A comparison of `p->parent` with a process.
abbrev pub points_to : Option ℕ → ℕ → Bool
points_to none j = false
points_to (some i) j = i == j

-- `(uint)stack % PGSIZE != 0` and `curproc->sz - (uint)stack < PGSIZE`
abbrev pub is_no_stack : ℕ → ℕ → Bool
is_no_stack sz stack = not (stack % 4096 == 0) || ltb (u32 (sz + u32_mod - stack)) 4096

-- `*(uint*)address = word` in the memory of a process
abbrev pub store : ℕ → ℕ → ℕ → (ℕ → ℕ → ℕ) → ℕ → ℕ → ℕ
store pgdir address word memory = update memory pgdir (update (memory pgdir) address word)

-- The two arguments and the return address of the new thread.
abbrev pub push_args : ℕ → ℕ → ℕ → ℕ → (ℕ → ℕ → ℕ) → ℕ → ℕ → ℕ
push_args pgdir stack arg1 arg2 memory =
    store pgdir (u32 (stack + 4084)) 4294967295
      (store pgdir (u32 (stack + 4088)) arg1 (store pgdir (u32 (stack + 4092)) arg2 memory))

-- What `clone` makes of the new slot.
abbrev pub become_thread : ℕ → Proc → ℕ → ℕ → List ℕ → Proc → Proc
become_thread cur parent fcn stack files np = record np {
  pgdir = parent.pgdir;
  sz = parent.sz;
  parent = some cur;
  tf = record parent.tf { eax = 0; eip = fcn; esp = u32 (stack + 4084); ebp = u32 (stack + 4084) };
  stack = stack;
  ofile = files;
  cwd = parent.cwd;
  name = take 15 parent.name;
  state = ProcState.runnable;
}

-- What a pass of `wait` or `join` over the table finds: an exited one, or whether there are any.
pub data Scan : Type 0 where
  exited : ℕ → Scan
  others : Bool → Scan

unfoldable pub scan : (Proc → Bool) → ℕ → Bool → Table → Scan
scan mine i have [] = others have
scan mine i have (p ∷ ps) =
    let rest = scan mine (i + 1) (have || mine p) ps in
    if mine p && is_zombie p.state then exited i else rest

-- The processes that `wait` looks at, for the process `p` in slot `cur`, and those of `join`.
abbrev pub is_child : ℕ → Proc → Proc → Bool
is_child cur p q = points_to q.parent cur && not (q.pgdir == p.pgdir)

abbrev pub is_thread : ℕ → Proc → Proc → Bool
is_thread cur p q = points_to q.parent cur && (not (q.pid == p.pid) && (q.pgdir == p.pgdir))

-- What both leave of it.
abbrev pub reap : Proc → Proc
reap p = record p {
  kstack = 0;
  pid = 0;
  parent = none;
  name = [];
  killed = false;
  state = ProcState.unused;
}

-- What a pass of `wait` ends with, and of `join`, which gives the stack as well.
pub data Waited : Type 0 where
  reaped : ℕ → Waited
  joined : ℕ → ℕ → Waited
  nobody asleep : Waited

-- `sleep(curproc, &ptable.lock)` up to its call of `sched`.
abbrev pub go_to_sleep : ℕ → Table → Table
go_to_sleep cur = modify cur (λ p. record p { chan = Chan.proc cur; state = ProcState.sleeping })

-- The loop of `growproc`.
unfoldable pub share_size : ℕ → ℕ → Table → Table
share_size pgdir sz [] = []
share_size pgdir sz (p ∷ ps) =
    (if p.pgdir == pgdir then record p { sz = sz } else p) ∷ share_size pgdir sz ps

module _ (sv : Services) where
  open sv use {World, kalloc, kfree, freevm, allocuvm, deallocuvm, filedup, idup}

  -- `allocproc` with the free slot `i`: the trap frame and the context stand on the kernel stack.
  unfoldable pub alloc_slot : ℕ → Kernel World → Option ℕ × Kernel World
  alloc_slot i k =
      let claimed =
        modify i (λ p. record p { state = ProcState.embryo; pid = k.nextpid; stack = 0 }) k.procs in
      let (page, w) = kalloc k.world in
      let k' = record k { nextpid = u32 (k.nextpid + 1); world = w } in
      if page == 0
      then (
        none,
        record k' {
          procs = modify i (λ p. record p { kstack = page; state = ProcState.unused }) claimed;
        },
      )
      else (some i, record k' { procs = modify i (λ p. record p { kstack = page }) claimed })

  unfoldable pub allocproc : Kernel World → Option ℕ × Kernel World
  allocproc k = elim (find_slot (λ p. is_unused p.state) 0 k.procs) [
    | none ↦ (none, k)
    | some i ↦ alloc_slot i k
  ]

  -- `if(curproc->ofile[i]) np->ofile[i] = filedup(curproc->ofile[i])` for each `i`
  unfoldable pub dup_files : List ℕ → List ℕ → World → List ℕ × World
  dup_files [] olds w = (olds, w)
  dup_files (f ∷ fs) [] w = ([], w)
  dup_files (f ∷ fs) (old ∷ olds) w =
      let (news, w') = dup_files fs olds (if f == 0 then w else filedup f w) in
      ((if f == 0 then old else f) ∷ news, w')

  -- `clone` behind `allocproc`, which gave slot `i` for `np`.
  unfoldable pub clone_into :
      ℕ → Proc → ℕ → ℕ → ℕ → ℕ → ℕ → Proc → Kernel World → Option ℕ × Kernel World
  clone_into cur parent fcn arg1 arg2 stack i np k =
      let (files, w) = dup_files parent.ofile np.ofile k.world in
      (
        some np.pid,
        record k {
          procs = modify i (become_thread cur parent fcn stack files) k.procs;
          memory = push_args parent.pgdir stack arg1 arg2 k.memory;
          world = idup parent.cwd w;
        },
      )

  unfoldable pub clone_slot :
      ℕ → Proc → ℕ → ℕ → ℕ → ℕ → Option ℕ → Kernel World → Option ℕ × Kernel World
  clone_slot cur parent fcn arg1 arg2 stack none k = (none, k)
  clone_slot cur parent fcn arg1 arg2 stack (some i) k = elim (get_elem? k.procs i) [
    | none ↦ (none, k)
    | some np ↦ clone_into cur parent fcn arg1 arg2 stack i np k
  ]

  -- `clone`, called by the process `parent` in slot `cur`: the pid, none for -1.
  unfoldable pub clone : ℕ → Proc → ℕ → ℕ → ℕ → ℕ → Kernel World → Option ℕ × Kernel World
  clone cur parent fcn arg1 arg2 stack k =
      if is_no_stack parent.sz stack
      then (none, k)
      else (let (slot, k') = allocproc k in clone_slot cur parent fcn arg1 arg2 stack slot k')

  -- One pass of the loop in `wait`, called by the process `p` in slot `cur`,
  unfoldable pub wait_pass : ℕ → Proc → Kernel World → Waited × Kernel World
  wait_pass cur p k = elim (scan (is_child cur p) 0 false k.procs) [
    | exited i ↦ elim (get_elem? k.procs i) [
      | none ↦ (nobody, k)
      | some c ↦ (
        reaped c.pid,
        record k { procs = modify i reap k.procs; world = freevm c.pgdir (kfree c.kstack k.world) },
      )
    ]
    | others havekids ↦
        if not havekids || p.killed
        then (nobody, k)
        else (asleep, record k { procs = go_to_sleep cur k.procs })
  ]

  -- and of the one in `join`.
  unfoldable pub join_pass : ℕ → Proc → Kernel World → Waited × Kernel World
  join_pass cur p k = elim (scan (is_thread cur p) 0 false k.procs) [
    | exited i ↦ elim (get_elem? k.procs i) [
      | none ↦ (nobody, k)
      | some t ↦ (
        joined t.pid t.stack,
        record k { procs = modify i reap k.procs; world = kfree t.kstack k.world },
      )
    ]
    | others havethreads ↦
        if not havethreads || p.killed
        then (nobody, k)
        else (asleep, record k { procs = go_to_sleep cur k.procs })
  ]

  -- `growproc` behind its call of vm.c, which gives the new size.
  unfoldable pub grow_to : ℕ → Proc → ℕ → ℕ → Kernel World → Bool × Kernel World
  grow_to cur p n sz k = if (sz == 0) && not (n == 0) then (false, k) else (
    true,
    record k { procs = share_size p.pgdir sz (modify cur (λ q. record q { sz = sz }) k.procs) },
  )

  -- `growproc` by the `int` `n`, called by the process `p` in slot `cur`.
  unfoldable pub growproc : ℕ → Proc → ℕ → Kernel World → Bool × Kernel World
  growproc cur p n k =
      let (sz, w) =
        if is_positive n
        then allocuvm p.pgdir p.sz (u32 (p.sz + n)) k.world
        else if n == 0
        then (p.sz, k.world)
        else deallocuvm p.pgdir p.sz (u32 (p.sz + n)) k.world in
      grow_to cur p n sz (record k { world = w })
