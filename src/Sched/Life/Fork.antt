-- ===== src/Sched/Life/Fork.antt =====
-- P2A: Scheduling/proc.c: the three outcomes of `fork`.
use compsci537_introduction.Common.{
  ℕ, ◌+◌, ◌≡◌, refl, ◌∙◌, ◌≢◌, true, false, Option, none, some, arith, get_elem?, inl, inr,
  Bool-cases, ◌==◌, Bool,
}
use compsci537_introduction.Common.Words.{u32}
use compsci537_introduction.Sched.Table.{Proc, ProcState, Table, is_unused, modify}
use compsci537_introduction.Sched.Table.Slots.{
  get_elem?-modify_self, get_elem?-modify_ne, SameBut, First, NoneOf, found, missing, Search-slots,
  find_slot-found, find_slot-missing,
}
use compsci537_introduction.Sched.Services.{Services}
use compsci537_introduction.Sched.Life.{
  Kernel, prepare, alloc_slot, allocproc, fork_into, fork_slot, fork,
}

abbrev pub unused_slot : Proc → Bool
unused_slot p = is_unused p.state

-- `c` is a new child of the process `parent` in slot `cur`.
pub record IsChild (cur pid : ℕ) (parent c : Proc) : Type 0 where
  pub can_run : c.state ≡ ProcState.runnable
  pub own_pid : c.pid ≡ pid
  pub of_parent : c.parent ≡ some cur
  pub size : c.sz ≡ parent.sz
  pub returns_zero : c.tf ≡ record parent.tf { eax = 0 }
  pub tickets : c.ticket ≡ parent.ticket
  pub no_boosts : c.boostsleft ≡ 0
  pub no_ticks : c.run_ticks ≡ 0
  pub no_sleep : (c.sleep_ticks ≡ 0) × (c.sleep_ticks_count ≡ 0)
  pub directory : c.cwd ≡ parent.cwd

-- How `fork` of the process `parent` in slot `cur` leaves the kernel.
pub data Forked (sv : Services) (cur : ℕ) (parent : Proc) (k : Kernel sv.World) (r : Option ℕ)
    (k' : Kernel sv.World) : Type 0 where
  -- no free slot: nothing happens
  full : NoneOf unused_slot k.procs → r ≡ none → k' ≡ k → Forked sv cur parent k r k'
  -- no page for the kernel stack: the slot is free again
  no_stack :
      (i : ℕ) (p q : Proc)
      → First unused_slot k.procs i p
      → (sv.kalloc k.world).0 ≡ 0
      → r ≡ none
      → get_elem? k'.procs i ≡ some q
      → q.state ≡ ProcState.unused
      → q.pid ≡ k.nextpid
      → SameBut i k.procs k'.procs
      → k'.nextpid ≡ u32 (k.nextpid + 1)
      → k'.world ≡ (sv.kalloc k.world).1
      → Forked sv cur parent k r k'
  -- no copy of the page table: the slot is free again, and so is the page of the kernel stack
  no_pages :
      (i : ℕ) (p q : Proc)
      → First unused_slot k.procs i p
      → (sv.kalloc k.world).0 ≢ 0
      → (sv.copyuvm parent.pgdir parent.sz (sv.kalloc k.world).1).0 ≡ 0
      → r ≡ none
      → get_elem? k'.procs i ≡ some q
      → (q.state ≡ ProcState.unused) × (q.kstack ≡ 0) × (q.pgdir ≡ 0)
      → q.pid ≡ k.nextpid
      → SameBut i k.procs k'.procs
      → k'.nextpid ≡ u32 (k.nextpid + 1)
      → k'.world
        ≡ sv.kfree (sv.kalloc k.world).0 (sv.copyuvm parent.pgdir parent.sz (sv.kalloc k.world).1).1
      → Forked sv cur parent k r k'
  child :
      (i : ℕ) (p c : Proc)
      → First unused_slot k.procs i p
      → (sv.kalloc k.world).0 ≢ 0
      → (sv.copyuvm parent.pgdir parent.sz (sv.kalloc k.world).1).0 ≢ 0
      → r ≡ some k.nextpid
      → get_elem? k'.procs i ≡ some c
      → IsChild cur k.nextpid parent c
      → c.kstack ≡ (sv.kalloc k.world).0
      → c.pgdir ≡ (sv.copyuvm parent.pgdir parent.sz (sv.kalloc k.world).1).0
      → SameBut i k.procs k'.procs
      → k'.nextpid ≡ u32 (k.nextpid + 1)
      → Forked sv cur parent k r k'

eq_zero : (n : ℕ) → (n == 0) ≡ true → n ≡ 0
eq_zero n e = ground arith

ne_zero : (n : ℕ) → (n == 0) ≡ false → n ≢ 0
ne_zero n e = ground arith

modify_twice-SameBut :
    (i : ℕ) (f g : Proc → Proc) (ps : Table) → SameBut i ps (modify i g (modify i f ps))
modify_twice-SameBut i f g ps j h =
    get_elem?-modify_ne i j g (modify i f ps) h ∙ get_elem?-modify_ne i j f ps h

module _ (sv : Services) where
  open sv use {World, kalloc, copyuvm}

  module _ (cur : ℕ) (parent : Proc) (k : Kernel World) where
    -- `fork` with no free slot.
    fork_full : NoneOf unused_slot k.procs → fork sv cur parent k ≡ (none, k)
    unfolding fork allocproc fork_slot
    fork_full h = rw (find_slot-missing unused_slot 0 k.procs h, allocproc)

    module _ (i : ℕ) (p : Proc) (free : First unused_slot k.procs i p) where
      abbrev page : ℕ
      page = (kalloc k.world).0

      -- The slot when `allocproc` returns it, and the kernel then.
      abbrev np : Proc
      np = prepare sv page (record p { state = ProcState.embryo; pid = k.nextpid })

      abbrev k1 : Kernel World
      k1 = record k {
        nextpid = u32 (k.nextpid + 1);
        world = (kalloc k.world).1;
        procs =
            modify i (prepare sv page)
              (modify i (λ q. record q { state = ProcState.embryo; pid = k.nextpid }) k.procs);
      }

      np-elem : get_elem? k1.procs i ≡ some np
      np-elem = get_elem?-modify_self i _ _ _ (get_elem?-modify_self i _ k.procs p free.here)

      fork_no_stack :
          (page == 0) ≡ true
          → Forked sv cur parent k (fork sv cur parent k).0 (fork sv cur parent k).1
      unfolding fork allocproc fork_slot alloc_slot
      fork_no_stack e =
          rw (find_slot-found unused_slot 0 i k.procs i p free (omega arith), e, allocproc)
            (no_stack i p _ free (eq_zero page e) refl
              (get_elem?-modify_self i _ _ _ (get_elem?-modify_self i _ k.procs p free.here)) refl
              refl (modify_twice-SameBut i _ _ k.procs) refl refl)

      fork-eq-fork_into :
          (page == 0) ≡ false → fork sv cur parent k ≡ fork_into sv cur parent i np k1
      unfolding fork allocproc fork_slot alloc_slot
      fork-eq-fork_into e = rw (
        find_slot-found unused_slot 0 i k.procs i p free (omega arith),
        e,
        np-elem,
        allocproc,
        fork_slot,
      )

      modify_thrice-SameBut : (f : Proc → Proc) → SameBut i k.procs (modify i f k1.procs)
      modify_thrice-SameBut f j h =
          get_elem?-modify_ne i j f k1.procs h ∙ modify_twice-SameBut i _ _ k.procs j h

      fork_into-Forked :
          (page == 0) ≡ false
          → Forked sv cur parent k
              (fork_into sv cur parent i np k1).0
              (fork_into sv cur parent i np k1).1
      unfolding fork_into
      fork_into-Forked given =
          elim (Bool-cases ((copyuvm parent.pgdir parent.sz k1.world).0 == 0)) [
            | inl e ↦ rw e (
                no_pages i p _ free (ne_zero page given) (eq_zero _ e) refl
                  (get_elem?-modify_self i _ k1.procs np np-elem) (refl, refl, refl) refl
                  (modify_thrice-SameBut _) refl refl)
            | inr e ↦ rw e (
                child i p _ free (ne_zero page given) (ne_zero _ e) refl
                  (get_elem?-modify_self i _ k1.procs np np-elem)
                  (record {
                    can_run = refl;
                    own_pid = refl;
                    of_parent = refl;
                    size = refl;
                    returns_zero = refl;
                    tickets = refl;
                    no_boosts = refl;
                    no_ticks = refl;
                    no_sleep = (refl, refl);
                    directory = refl;
                  })
                  refl refl (modify_thrice-SameBut _) refl)
          ]

  -- `fork` ends in one of four ways. With no free slot it returns -1 and changes nothing. If `kalloc`
  -- gives no page for the stack it returns -1, and leaves the first free slot unused, with the next
  -- pid. If it does and `copyuvm` gives no page table, it returns -1, leaves the first free slot unused,
  -- without a stack and a page table and with the next pid, and frees the page. If both give
  -- what is asked for, it returns the next pid, and the first free slot holds a runnable child of the
  -- caller with that pid, that stack and that page table, the caller's size, tickets and directory, a
  -- result of 0 and no boosts or ticks. Except in the first case the next pid has moved on. No other slot
  -- changes.
  pub fork-Forked :
      (cur : ℕ) (parent : Proc) (k : Kernel World)
      → Forked sv cur parent k (fork sv cur parent k).0 (fork sv cur parent k).1
  fork-Forked cur parent k = elim (Search-slots unused_slot k.procs) [
    | missing h ↦ rw (fork_full cur parent k h) (full h refl refl)
    | found i p free ↦ elim (Bool-cases ((kalloc k.world).0 == 0)) [
      | inl e ↦ fork_no_stack cur parent k i p free e
      | inr e ↦
          rw (fork-eq-fork_into cur parent k i p free e) (fork_into-Forked cur parent k i p free e)
    ]
  ]
