-- ===== src/Threads/Clone.antt =====
-- P3B: xv6 Kernel threads/proc.c: what `clone` makes.
use compsci537_introduction.Common.{
  ℕ, ◌+◌, ◌-◌, ◌%◌, ◌≤◌, ◌<◌, ◌≡◌, ◌≢◌, refl, ap, ◌∙◌, ◌⊎◌, inl, inr, true, false, Option, none,
  some, ◌==◌, get_elem?, Bool-cases, Option-cases, arith,
}
use compsci537_introduction.Common.Maps.{update, update_self, update_ne}
use compsci537_introduction.Common.Words.{u32}
use compsci537_introduction.Sched.Table.{ProcState, is_unused}
use compsci537_introduction.Sched.Table.States.{is_unused-eq, is_unused-ne}
use compsci537_introduction.Threads.Slots.{
  get_elem?-modify_self, get_elem?-modify_ne, find_slot_lem, find_slot-none, SameBut,
  modify_twice-SameBut,
}
use compsci537_introduction.Threads.Kernel.{
  Proc, Table, Services, Kernel, modify, find_slot, is_no_stack, store, push_args, alloc_slot,
  allocproc, clone_into, clone_slot, clone,
}

store_self : (d a w : ℕ) (m : ℕ → ℕ → ℕ) → store d a w m d a ≡ w
store_self d a w m =
    ap (λ (g : ℕ → ℕ). g a) (update_self m d (update (m d) a w)) ∙ update_self (m d) a w

store_ne : (d a b w : ℕ) (m : ℕ → ℕ → ℕ) → b ≢ a → store d a w m d b ≡ m d b
store_ne d a b w m ne =
    ap (λ (g : ℕ → ℕ). g b) (update_self m d (update (m d) a w)) ∙ update_ne (m d) a w b ne

store_elsewhere : (d d' a b w : ℕ) (m : ℕ → ℕ → ℕ) → d' ≢ d → store d a w m d' b ≡ m d' b
store_elsewhere d d' a b w m ne = ap (λ (g : ℕ → ℕ). g b) (update_ne m d (update (m d) a w) d' ne)

-- The words at a thread's stack pointer: the return address and the arguments. The other words of the
-- process and those of other processes are as before.
pub record StackWords (d stack arg1 arg2 : ℕ) (memory memory' : ℕ → ℕ → ℕ) : Type 0 where
  pub return_address : memory' d (u32 (stack + 4084)) ≡ 4294967295
  pub first_arg : memory' d (u32 (stack + 4088)) ≡ arg1
  pub second_arg : memory' d (u32 (stack + 4092)) ≡ arg2
  pub other_words :
      (a : ℕ)
      → a ≢ u32 (stack + 4084)
      → a ≢ u32 (stack + 4088)
      → a ≢ u32 (stack + 4092)
      → memory' d a ≡ memory d a
  pub other_processes : (d' a : ℕ) → d' ≢ d → memory' d' a ≡ memory d' a

push_args-StackWords :
    (d stack arg1 arg2 : ℕ) (memory : ℕ → ℕ → ℕ)
    → StackWords d stack arg1 arg2 memory (push_args d stack arg1 arg2 memory)
push_args-StackWords d stack arg1 arg2 memory =
    let m1 = store d (u32 (stack + 4092)) arg2 memory in
    let m2 = store d (u32 (stack + 4088)) arg1 m1 in
    record {
      return_address = store_self d (u32 (stack + 4084)) 4294967295 m2;
      first_arg =
          store_ne d (u32 (stack + 4084)) (u32 (stack + 4088)) 4294967295 m2 (omega arith)
          ∙ store_self d (u32 (stack + 4088)) arg1 m1;
      second_arg =
          store_ne d (u32 (stack + 4084)) (u32 (stack + 4092)) 4294967295 m2 (omega arith)
          ∙ store_ne d (u32 (stack + 4088)) (u32 (stack + 4092)) arg1 m1 (omega arith)
          ∙ store_self d (u32 (stack + 4092)) arg2 memory;
      other_words = λ a n1 n2 n3.
          store_ne d (u32 (stack + 4084)) a 4294967295 m2 n1
          ∙ store_ne d (u32 (stack + 4088)) a arg1 m1 n2
          ∙ store_ne d (u32 (stack + 4092)) a arg2 memory n3;
      other_processes = λ d' a ne.
          store_elsewhere d d' (u32 (stack + 4084)) a 4294967295 m2 ne
          ∙ store_elsewhere d d' (u32 (stack + 4088)) a arg1 m1 ne
          ∙ store_elsewhere d d' (u32 (stack + 4092)) a arg2 memory ne;
    }

-- `t` is a new thread of the process `parent` in slot `cur`.
pub record IsThread (cur fcn stack pid : ℕ) (parent t : Proc) : Type 0 where
  pub can_run : t.state ≡ ProcState.runnable
  pub own_pid : t.pid ≡ pid
  pub of_parent : t.parent ≡ some cur
  pub shares : (t.pgdir ≡ parent.pgdir) × (t.sz ≡ parent.sz)
  pub starts : (t.tf.eip ≡ fcn) × (t.tf.esp ≡ u32 (stack + 4084)) × (t.tf.ebp ≡ u32 (stack + 4084))
  pub own_stack : t.stack ≡ stack
  pub directory : t.cwd ≡ parent.cwd

-- The stack starts a page, and the distance from it to the end of the process, as a 32-bit unsigned
-- number, is at least a page; or one of these fails.
abbrev pub TakesStack : ℕ → ℕ → Type 0
TakesStack sz stack = (stack % 4096 ≡ 0) × (4096 ≤ u32 (sz + 4294967296 - stack))

abbrev pub RefusesStack : ℕ → ℕ → Type 0
RefusesStack sz stack = (stack % 4096 ≢ 0) ⊎ (u32 (sz + 4294967296 - stack) < 4096)

abbrev pub NoneFree : Table → Type 0
NoneFree ps = (j : ℕ) (p : Proc) → get_elem? ps j ≡ some p → p.state ≢ ProcState.unused

-- How `clone` of the process `parent` in slot `cur` leaves the kernel.
pub data Cloned (sv : Services) (cur : ℕ) (parent : Proc) (fcn arg1 arg2 stack : ℕ)
    (k : Kernel sv.World) (r : Option ℕ) (k' : Kernel sv.World) : Type 0 where
  -- the stack is refused, or there is no free slot: nothing happens
  refused :
      RefusesStack parent.sz stack ⊎ (TakesStack parent.sz stack × NoneFree k.procs)
      → r ≡ none
      → k' ≡ k
      → Cloned sv cur parent fcn arg1 arg2 stack k r k'
  -- no kernel stack: the slot is free again
  no_memory :
      (i : ℕ) (p q : Proc)
      → TakesStack parent.sz stack
      → (sv.kalloc k.world).0 ≡ 0
      → get_elem? k.procs i ≡ some p
      → p.state ≡ ProcState.unused
      → r ≡ none
      → get_elem? k'.procs i ≡ some q
      → q.state ≡ ProcState.unused
      → SameBut i k.procs k'.procs
      → k'.memory ≡ k.memory
      → Cloned sv cur parent fcn arg1 arg2 stack k r k'
  thread :
      (i : ℕ) (p t : Proc)
      → TakesStack parent.sz stack
      → (sv.kalloc k.world).0 ≢ 0
      → get_elem? k.procs i ≡ some p
      → p.state ≡ ProcState.unused
      → r ≡ some k.nextpid
      → get_elem? k'.procs i ≡ some t
      → IsThread cur fcn stack k.nextpid parent t
      → t.kstack ≡ (sv.kalloc k.world).0
      → SameBut i k.procs k'.procs
      → StackWords parent.pgdir stack arg1 arg2 k.memory k'.memory
      → k'.nextpid ≡ u32 (k.nextpid + 1)
      → Cloned sv cur parent fcn arg1 arg2 stack k r k'

is_no_stack-TakesStack : (sz stack : ℕ) → is_no_stack sz stack ≡ false → TakesStack sz stack
is_no_stack-TakesStack sz stack h = (ground arith, ground arith)

is_no_stack-RefusesStack : (sz stack : ℕ) → is_no_stack sz stack ≡ true → RefusesStack sz stack
is_no_stack-RefusesStack sz stack h = elim (Bool-cases (stack % 4096 == 0)) [
  | inl y ↦ inr (ground arith)
  | inr n ↦ inl (ground arith)
]

module _ (sv : Services) (cur : ℕ) (parent : Proc) (fcn arg1 arg2 stack : ℕ)
    (k : Kernel sv.World) where
  abbrev Ends : Type 0
  Ends =
      Cloned sv cur parent fcn arg1 arg2 stack k (clone sv cur parent fcn arg1 arg2 stack k).0
        (clone sv cur parent fcn arg1 arg2 stack k).1

  abbrev page : ℕ
  page = (sv.kalloc k.world).0

  module _ (i : ℕ) (p : Proc) (free : get_elem? k.procs i ≡ some p)
      (unused : is_unused p.state ≡ true)
      (found : find_slot (λ p. is_unused p.state) 0 k.procs ≡ some i)
      (fits : is_no_stack parent.sz stack ≡ false) where
    abbrev claim_slot : Proc → Proc
    claim_slot q = record q { state = ProcState.embryo; pid = k.nextpid; stack = 0 }

    clones_nothing : (page == 0) ≡ true → Ends
    unfolding clone allocproc alloc_slot clone_slot
    clones_nothing empty =
        rw (fits, found, empty, clone, allocproc)
          (no_memory i p _ (is_no_stack-TakesStack parent.sz stack fits) (ground arith) free
            (is_unused-eq p.state unused) refl
            (get_elem?-modify_self i _ (modify i claim_slot k.procs) (claim_slot p)
              (get_elem?-modify_self i claim_slot k.procs p free))
            refl (modify_twice-SameBut i _ _ k.procs) refl)

    clones_thread : (page == 0) ≡ false → Ends
    unfolding clone allocproc alloc_slot clone_slot clone_into
    clones_thread given =
        let claimed = get_elem?-modify_self i claim_slot k.procs p free in
        let np =
          get_elem?-modify_self i (λ q. record q { kstack = page }) (modify i claim_slot k.procs)
            (claim_slot p) claimed in
        rw (fits, found, given, np, clone, allocproc, clone_slot)
          (thread i p _ (is_no_stack-TakesStack parent.sz stack fits) (ground arith) free
            (is_unused-eq p.state unused) refl (get_elem?-modify_self i _ _ _ np)
            (record {
              can_run = refl;
              own_pid = refl;
              of_parent = refl;
              shares = (refl, refl);
              starts = (refl, refl, refl);
              own_stack = refl;
              directory = refl;
            })
            refl (λ j ne. get_elem?-modify_ne i j _ _ ne ∙ modify_twice-SameBut i _ _ k.procs j ne)
            (push_args-StackWords parent.pgdir stack arg1 arg2 k.memory) refl)

  clones_refused : is_no_stack parent.sz stack ≡ true → Ends
  unfolding clone
  clones_refused bad =
      rw (bad, clone) (refused (inl (is_no_stack-RefusesStack parent.sz stack bad)) refl refl)

  clones_full :
      is_no_stack parent.sz stack ≡ false
      → find_slot (λ p. is_unused p.state) 0 k.procs ≡ none
      → Ends
  unfolding clone allocproc clone_slot
  clones_full fits full =
      rw (fits, full, clone, allocproc)
        (refused
          (inr (
            is_no_stack-TakesStack parent.sz stack fits,
            λ j p e.
                is_unused-ne p.state (find_slot-none (λ p. is_unused p.state) 0 k.procs full j p e),
          ))
          refl refl)

  -- `clone` ends in one of three ways. If the stack is not at the start of a page, or the caller's
  -- size less the stack, as a 32-bit unsigned number, is below a page (a stack above the size gives a
  -- large one), or if no slot is free, it returns -1 and changes nothing. If the stack passes and `kalloc`
  -- has no page, it returns -1, and only a free slot was written to in the table, which is free again. Else it returns
  -- the next pid, and a slot that was free holds a runnable thread with that page as its kernel stack
  -- and with the caller's page table and size, which starts at the function with the return address
  -- 0xffffffff and the two arguments at its stack pointer; no other slot and no other word of memory
  -- changes.
  pub clone-Cloned :
      Cloned sv cur parent fcn arg1 arg2 stack k
        (clone sv cur parent fcn arg1 arg2 stack k).0
        (clone sv cur parent fcn arg1 arg2 stack k).1
  clone-Cloned = elim (Bool-cases (is_no_stack parent.sz stack)) [
    | inl bad ↦ clones_refused bad
    | inr fits ↦ elim (Option-cases (find_slot (λ p. is_unused p.state) 0 k.procs)) [
      | inl full ↦ clones_full fits full
      | inr (n, found) ↦
          let (i, p, at, here, unused) = find_slot_lem (λ p. is_unused p.state) 0 n k.procs found in
          let one : n ≡ i = omega arith in
          let found_i : find_slot (λ p. is_unused p.state) 0 k.procs ≡ some i =
            found ∙ ap some one in
          elim (Bool-cases (page == 0)) [
            | inl empty ↦ clones_nothing i p here unused found_i fits empty
            | inr given ↦ clones_thread i p here unused found_i fits given
          ]
    ]
  ]
