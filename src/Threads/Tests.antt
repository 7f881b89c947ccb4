-- ===== src/Threads/Tests.antt =====
-- P3B: xv6 Kernel threads at concrete states.
use mathlib.Core.Option.{some-injective, none-ne-some}
use compsci537_introduction.Common.{
  ℕ, zero, suc, sym, ap, ◌∙◌, ◌+◌, ◌*◌, ◌%◌, ◌≤◌, ◌≡◌, refl, false, Option, none, some, List, [],
  ◌∷◌, get_elem?, arith,
}
use compsci537_introduction.Threads.Lock.{
  spinning, inside, fetch_and_add, lock_init, take_ticket, spin, step, run, new_lock,
}
use compsci537_introduction.Sched.Table.{ProcState, Chan}
use compsci537_introduction.Threads.Kernel.{Proc, Services, Kernel, clone, growproc, join_pass}
use compsci537_introduction.Threads.Join.{Joined, join_pass-Joined}
use compsci537_introduction.Threads.Clone.{Cloned, clone-Cloned}
use compsci537_introduction.Threads.Size.{SameSize, sizes_kept}
use compsci537_introduction.Threads.Create.{
  Entries, stack_in, thread_create, thread_join, addresses, page_bytes, HasRoom,
  thread_create-thread_join,
}
use compsci537_introduction.Threads.Lock.Turns.{lock_excludes, lock_acquires}

-- Two threads take tickets, and the first one enters.
abbrev two_steps : List ℕ
two_steps = 0 ∷ 1 ∷ 0 ∷ 1 ∷ []

first_inside : get_elem? (run two_steps (new_lock 2)).threads 0 ≡ some inside
unfolding run step take_ticket spin fetch_and_add lock_init
first_inside = refl

second_waits : get_elem? (run two_steps (new_lock 2)).threads 1 ≡ some (spinning 1)
unfolding run step take_ticket spin fetch_and_add lock_init
second_waits = refl

abbrev first : ℕ
first = 0

lock_excludes_example : first ≡ first
lock_excludes_example = lock_excludes 2 two_steps 0 0 (omega arith) first_inside first_inside

lock_acquires_example :
    (more : List ℕ) × (get_elem? (run more (run two_steps (new_lock 2))).threads 1 ≡ some inside)
lock_acquires_example = lock_acquires 2 two_steps 1 1 (omega arith) second_waits

-- Services that always have a page, number 7.
abbrev services : Services
services = record {
  World = ℕ;
  kalloc = λ w. (7, w);
  kfree = λ page w. w;
  freevm = λ pgdir w. w;
  allocuvm = λ pgdir old size w. (size, w);
  deallocuvm = λ pgdir old size w. (size, w);
  filedup = λ f w. w;
  idup = λ d w. w;
}

abbrev caller : Proc
caller = record {
  sz = 16384;
  pgdir = 5;
  kstack = 9;
  state = ProcState.running;
  pid = 1;
  parent = none;
  tf = record { eax = 0; eip = 0; esp = 4096; ebp = 0; others = [] };
  chan = Chan.null;
  killed = false;
  ofile = [];
  cwd = 1;
  name = [];
  stack = 0;
}

abbrev unused_proc : Proc
unused_proc = record caller { state = ProcState.unused; pid = 0 }

-- A thread of the caller that has exited.
abbrev old_thread : Proc
old_thread = record caller { state = ProcState.zombie; pid = 2; parent = some 0; stack = 8192 }

abbrev kernel : Kernel ℕ
kernel = record {
  procs = caller ∷ (unused_proc ∷ (old_thread ∷ []));
  nextpid = 3;
  memory = λ d a. 0;
  world = 0;
}

clone-Cloned_example :
    Cloned services 0 caller 100 11 12 4096 kernel
      (clone services 0 caller 100 11 12 4096 kernel).0
      (clone services 0 caller 100 11 12 4096 kernel).1
clone-Cloned_example = clone-Cloned services 0 caller 100 11 12 4096 kernel

join_pass-Joined_example :
    Joined services 0 caller kernel
      (join_pass services 0 caller kernel).0
      (join_pass services 0 caller kernel).1
join_pass-Joined_example = join_pass-Joined services 0 caller kernel

abbrev one_entry : Entries
one_entry = record { address = 0; pid = 0 } ∷ []

one_entry-HasRoom : HasRoom one_entry
unfolding HasRoom
one_entry-HasRoom = _

abbrev always : ℕ → Option ℕ
always stack = some 3

thread_create-thread_join_example :
    (es' es'' : Entries) × (thread_create 5000 always one_entry ≡ (some 3, es', []))
    × (thread_join (some 3) es' ≡ (some 3, es'', 5000 ∷ []))
    × (addresses es'' ≡ addresses one_entry)
    × (stack_in 5000 % page_bytes ≡ 0)
    × (5000 ≤ stack_in 5000)
    × (stack_in 5000 + page_bytes ≤ 5000 + 2 * page_bytes)
thread_create-thread_join_example =
    thread_create-thread_join 5000 3 always one_entry (λ e. omega arith) (omega arith) refl
      (refl, _) one_entry-HasRoom

-- A table with the caller alone.
abbrev alone : Kernel ℕ
alone = record kernel { procs = caller ∷ [] }

alone-SameSize : SameSize alone.procs
alone-SameSize zero zero p q hp hq live live' tables =
    ap (λ (r : Proc). r.sz) (some-injective _ _ (sym hp ∙ hq))
alone-SameSize zero (suc j) p q hp hq live live' tables = absurd (none-ne-some _ hq)
alone-SameSize (suc i) j p q hp hq live live' tables = absurd (none-ne-some _ hp)

sizes_kept_example :
    ((n : ℕ) → SameSize (growproc services 0 caller n alone).1.procs)
    × ((fcn arg1 arg2 stack : ℕ)
        → SameSize (clone services 0 caller fcn arg1 arg2 stack alone).1.procs)
sizes_kept_example = sizes_kept services 0 caller alone refl refl alone-SameSize
