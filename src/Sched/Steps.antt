-- ===== src/Sched/Steps.antt =====
-- P2A: Scheduling/proc.c: the kernel's process table under every sequence of the operations.
pub mod Keeps
pub mod Pids
use compsci537_introduction.Common.{
  ℕ, ◌+◌, ◌<◌, ◌≡◌, ◌≢◌, true, false, Option, none, some, get_elem?,
}
use compsci537_introduction.Common.Words.{sign_bit}
use compsci537_introduction.Sched.Table.{Proc, Chan, Table, is_unused}
use compsci537_introduction.Sched.Lottery.{scheduler_turn}
use compsci537_introduction.Sched.Sleep.{wakeup1, go_to_sleep, tidy_up, yield, sys_sleep, kill}
use compsci537_introduction.Sched.Tickets.{sys_settickets}
use compsci537_introduction.Sched.Services.{Services}
use compsci537_introduction.Sched.Life.{Kernel, fork, exit, wait_pass, growproc}

-- Slot `cur` holds the process `p`, which is in use.
pub record Current (cur : ℕ) (p : Proc) (ps : Table) : Type 0 where
  pub here : get_elem? ps cur ≡ some p
  pub used : is_unused p.state ≡ false

module _ (sv : Services) where
  open sv use {World}

  abbrev pub with_procs : Kernel World → Table → Kernel World
  with_procs k ps = record k { procs = ps }

  -- One operation of proc.c, by any process and in any order. Pids do not pass the largest `int`.
  pub data Step (k : Kernel World) : Kernel World → Type 0 where
    forks :
        (cur : ℕ) (p : Proc)
        → Current cur p k.procs
        → k.nextpid + 1 < sign_bit
        → Step k (fork sv cur p k).1
    exits :
        (cur : ℕ) (p : Proc) (k' : Kernel World)
        → Current cur p k.procs
        → exit sv cur p k ≡ some k'
        → Step k k'
    waits : (cur : ℕ) (p : Proc) → Current cur p k.procs → Step k (wait_pass sv cur p k).1
    grows : (cur n : ℕ) (p : Proc) → Current cur p k.procs → Step k (growproc sv cur p n k).1
    yields :
        (cur : ℕ) (p : Proc) → Current cur p k.procs → Step k (with_procs k (yield cur k.procs))
    sleeps :
        (cur : ℕ) (p : Proc) (chan : Chan)
        → Current cur p k.procs
        → Step k (with_procs k (go_to_sleep cur chan k.procs))
    sleeps_ticks :
        (cur n : ℕ) (p : Proc)
        → Current cur p k.procs
        → Step k (with_procs k (sys_sleep cur n k.procs))
    resumes : (cur : ℕ) → Step k (with_procs k (tidy_up cur k.procs))
    wakes : (chan : Chan) → Step k (with_procs k (wakeup1 chan k.procs))
    kills : (pid : ℕ) (ps : Table) → kill pid k.procs ≡ some ps → Step k (with_procs k ps)
    assigns :
        (pid n : ℕ) (ps : Table) → sys_settickets pid n k.procs ≡ some ps → Step k (with_procs k ps)
    schedules : (rseed : ℕ) → Step k (with_procs k (scheduler_turn rseed k.procs).2)

  -- What a kernel reaches by operations.
  pub data Reach (k : Kernel World) : Kernel World → Type 0 where
    here : Reach k k
    next : {l m : Kernel World} → Reach k l → Step l m → Reach k m
