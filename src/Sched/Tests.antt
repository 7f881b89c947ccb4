-- ===== src/Sched/Tests.antt =====
-- P2A: Scheduling/proc.c at concrete process tables.
use compsci537_introduction.Common.{
  ℕ, zero, suc, ◌+◌, ◌≡◌, ◌≢◌, ◌<◌, ◌≤◌, refl, false, none, some, [], ◌∷◌, arith, ◌↔◌, get_elem?,
}
use compsci537_introduction.Sched.Table.{Proc, ProcState, Chan, chan_eq, is_unused, Resume, Table}
use compsci537_introduction.Sched.Services.{Services}
use compsci537_introduction.Sched.Lottery.{
  hold_lottery, count_tickets, scheduler_turn, run, panic, rand,
}
use compsci537_introduction.Sched.Lottery.Fair.{lottery_fair, total, before, weight_at, drawn}
use compsci537_introduction.Sched.Lottery.Turns.{HasMemory, Ran, scheduler_runs, scheduler_panics}
use compsci537_introduction.Sched.Lottery.Winner.{Turned, scheduler_turn-Turned}
use compsci537_introduction.Sched.Sleep.{wakeup1, wakeups, sys_sleep, kill}
use compsci537_introduction.Sched.Sleep.Wake.{
  StillAsleep, sleep_lasts, sleep_ends_early, Killed, kill-Killed,
}
use compsci537_introduction.Sched.Tickets.{sys_settickets}
use compsci537_introduction.Sched.Tickets.Report.{Assigned, sys_settickets-Assigned}
use compsci537_introduction.Sched.Life.{Kernel, fork, exit, wait_pass}
use compsci537_introduction.Sched.Life.Fork.{Forked, fork-Forked}
use compsci537_introduction.Sched.Life.Exit.{Exited, exit-Exited}
use compsci537_introduction.Sched.Life.Wait.{Pass, wait_pass-Pass}
use compsci537_introduction.Sched.Steps.{Reach, forks, wakes, schedules, here, next}
use compsci537_introduction.Sched.Steps.Pids.{KernelValid, Reach-KernelValid}

abbrev free_slot : Proc
free_slot = record {
  sz = 0;
  pgdir = 0;
  kstack = 0;
  state = ProcState.unused;
  pid = 0;
  parent = none;
  tf = record { eax = 0; esp = 0; others = [] };
  context = Resume.at_forkret;
  chan = Chan.null;
  killed = false;
  ofile = 0 ∷ 0 ∷ [];
  cwd = 0;
  name = [];
  ticket = 0;
  sleep_ticks = 0;
  sleep_ticks_count = 0;
  run_ticks = 0;
  boostsleft = 0;
}

abbrev init_proc : Proc
init_proc = record free_slot {
  sz = 4096;
  pgdir = 7;
  kstack = 8;
  state = ProcState.runnable;
  pid = 1;
  ofile = 3 ∷ 0 ∷ [];
  cwd = 1;
  ticket = 1;
}

-- A boosted child of init.
abbrev shell : Proc
shell = record init_proc {
  pid = 2;
  parent = some 0;
  pgdir = 9;
  kstack = 10;
  ticket = 5;
  boostsleft = 2;
}

-- An exited child of the shell.
abbrev dead_child : Proc
dead_child = record init_proc { pid = 3; parent = some 1; state = ProcState.zombie }

abbrev two_procs : Table
two_procs = init_proc ∷ shell ∷ []

abbrev four_slots : Table
four_slots = init_proc ∷ shell ∷ dead_child ∷ free_slot ∷ []

abbrev rich : Table
rich = record init_proc { ticket = 3000000000 } ∷ []

-- Services in which the page numbers count up from the one kept.
abbrev counting : Services
counting = record {
  World = ℕ;
  kalloc = λ w. (w + 1, w + 1);
  kfree = λ p w. w;
  copyuvm = λ d s w. (w + 1, w + 1);
  freevm = λ d w. w;
  allocuvm = λ d o n w. (n, w);
  deallocuvm = λ d o n w. (n, w);
  filedup = λ f w. w;
  fileclose = λ f w. w;
  idup = λ i w. w;
  iput = λ i w. w;
}

abbrev kernel : Kernel ℕ
kernel = record { procs = four_slots; nextpid = 4; initproc = 0; world = 100 }

two_tickets : total two_procs ≡ 11
unfolding total
two_tickets = ground arith

lottery_fair_example : ((hold_lottery (count_tickets 0 two_procs) 1 two_procs).0 ≡ some 1) ↔ (
    (before 1 two_procs
      ≤ drawn 1 two_procs (omega (arith, two_tickets)) (omega (arith, two_tickets)))
    × (drawn 1 two_procs (omega (arith, two_tickets)) (omega (arith, two_tickets))
        < before 1 two_procs + weight_at 1 two_procs))
lottery_fair_example =
    lottery_fair 1 two_procs (omega (arith, two_tickets)) (omega (arith, two_tickets)) 1

four_tickets : total four_slots ≡ 11
unfolding total
four_tickets = ground arith

four_slots-HasMemory :
    (j : ℕ) (p : Proc)
    → get_elem? four_slots j ≡ some p
    → p.state ≡ ProcState.runnable
    → HasMemory p
four_slots-HasMemory zero p e r = record { stack = ground arith; pages = ground arith }
four_slots-HasMemory (suc zero) p e r = record { stack = ground arith; pages = ground arith }
four_slots-HasMemory (suc (suc zero)) p e r = absurd (ground arith)
four_slots-HasMemory (suc (suc (suc zero))) p e r = absurd (ground arith)
four_slots-HasMemory (suc (suc (suc (suc j)))) p e r = absurd cc

scheduler_runs_example :
    (i : ℕ) × (p : Proc) × (get_elem? four_slots i ≡ some p)
    × (p.state ≡ ProcState.runnable)
    × ((scheduler_turn 1 four_slots).0 ≡ run i)
    × ((scheduler_turn 1 four_slots).1 ≡ rand 1)
    × Ran i four_slots (scheduler_turn 1 four_slots).2
scheduler_runs_example =
    scheduler_runs 1 four_slots (omega (arith, four_tickets)) (omega (arith, four_tickets))
      four_slots-HasMemory

no_tickets : total (dead_child ∷ free_slot ∷ []) ≡ 0
unfolding total
no_tickets = ground arith

rich-total : total rich ≡ 3000000000
unfolding total
rich-total = ground arith

scheduler_panics_example : scheduler_turn 1 rich ≡ (panic, 1, rich)
scheduler_panics_example =
    scheduler_panics 1 rich (omega (arith, rich-total)) (omega (arith, rich-total))

scheduler_turn-Turned_example : Turned two_procs (scheduler_turn 1 two_procs).2
scheduler_turn-Turned_example = scheduler_turn-Turned 1 two_procs

-- The shell as it sleeps for three ticks.
abbrev napping : Proc
napping = record shell {
  sleep_ticks = 3;
  chan = Chan.ticks;
  state = ProcState.sleeping;
  context = Resume.in_sched;
}

sleep_lasts_example :
    (q : Proc) × (get_elem? (wakeups (Chan.ticks ∷ Chan.ticks ∷ []) (sys_sleep 1 3 two_procs)) 1
      ≡ some q)
    × StillAsleep napping q 2
sleep_lasts_example =
    sleep_lasts 1 3 two_procs shell refl refl (omega arith) (Chan.ticks ∷ Chan.ticks ∷ [])
      (omega arith)

unequal : chan_eq Chan.ticks (Chan.other 5) ≡ false
unfolding chan_eq
unequal = refl

sleep_ends_early_example :
    (q : Proc) × (get_elem?
        (wakeups (Chan.other 5 ∷ Chan.other 5 ∷ Chan.ticks ∷ []) (sys_sleep 1 3 two_procs))
        1
      ≡ some q)
    × (q.state ≡ ProcState.runnable)
sleep_ends_early_example =
    sleep_ends_early 1 3 two_procs shell refl refl (omega arith) (Chan.other 5 ∷ Chan.other 5 ∷ [])
      (unequal, (unequal, _)) (omega arith) (omega arith)

kill-Killed_example : Killed 2 two_procs (kill 2 two_procs)
kill-Killed_example = kill-Killed 2 two_procs

sys_settickets-Assigned_example : Assigned 2 9 two_procs (sys_settickets 2 9 two_procs)
sys_settickets-Assigned_example =
    sys_settickets-Assigned 2 9 two_procs (omega arith) (omega arith) (omega arith)

fork-Forked_example :
    Forked counting 1 shell kernel (fork counting 1 shell kernel).0 (fork counting 1 shell kernel).1
fork-Forked_example = fork-Forked counting 1 shell kernel

exit-Exited_example :
    (k' : Kernel ℕ) × (exit counting 1 shell kernel ≡ some k')
    × Exited 1 0 shell four_slots k'.procs
exit-Exited_example = exit-Exited counting 1 shell kernel refl (omega arith)

wait_pass-Pass_example :
    Pass counting 1 shell kernel
      (wait_pass counting 1 shell kernel).0
      (wait_pass counting 1 shell kernel).1
wait_pass-Pass_example = wait_pass-Pass counting 1 shell kernel

-- A kernel with init and a free slot.
abbrev young : Kernel ℕ
young = record { procs = init_proc ∷ free_slot ∷ []; nextpid = 2; initproc = 0; world = 100 }

young-below : (j : ℕ) (p : Proc) → get_elem? young.procs j ≡ some p → p.pid < 2
young-below zero p e = ground arith
young-below (suc zero) p e = ground arith
young-below (suc (suc j)) p e = absurd cc

young-used :
    (j : ℕ) (p : Proc) → get_elem? young.procs j ≡ some p → is_unused p.state ≡ false → p.pid ≢ 0
young-used zero p e u = ground arith
young-used (suc zero) p e u = ground arith
young-used (suc (suc j)) p e u = absurd cc

young-distinct :
    (i j : ℕ) (p q : Proc)
    → get_elem? young.procs i ≡ some p
    → get_elem? young.procs j ≡ some q
    → p.pid ≡ q.pid
    → p.pid ≢ 0
    → i ≡ j
young-distinct zero zero p q e f same some_pid = refl
young-distinct zero (suc zero) p q e f same some_pid = ground arith
young-distinct (suc zero) j p q e f same some_pid = ground arith
young-distinct zero (suc (suc j)) p q e f same some_pid = absurd cc
young-distinct (suc (suc i)) j p q e f same some_pid = absurd cc

young-KernelValid : KernelValid young
young-KernelValid = record {
  started = omega arith;
  below = young-below;
  used = young-used;
  distinct = young-distinct;
}

-- Init forks, and a wakeup and a turn of the scheduler follow.
abbrev forked : Kernel ℕ
forked = (fork counting 0 init_proc young).1

abbrev woken : Kernel ℕ
woken = record forked { procs = wakeup1 Chan.ticks forked.procs }

abbrev scheduled : Kernel ℕ
scheduled = record woken { procs = (scheduler_turn 1 woken.procs).2 }

young_run : Reach counting young scheduled
young_run =
    next {l = woken}
      (next {l = forked}
        (next {l = young} here
          (forks 0 init_proc (record { here = refl; used = refl }) (omega arith)))
        (wakes Chan.ticks))
      (schedules 1)

Reach-KernelValid_example : KernelValid scheduled
Reach-KernelValid_example = Reach-KernelValid counting young-KernelValid young_run
