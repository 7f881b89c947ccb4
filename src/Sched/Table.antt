-- ===== src/Sched/Table.antt =====
-- P2A: Scheduling/proc.h: the process table. A `struct proc *` is the slot's index in the table.
pub mod Slots
pub mod States
use compsci537_introduction.Common.{
  ℕ, zero, suc, ◌+◌, Bool, true, false, Option, none, some, List, [], ◌∷◌, ◌==◌, if◌then◌else◌,
}

-- NPROC and NOFILE of param.h
abbrev pub nproc : ℕ
nproc = 64

abbrev pub nofile : ℕ
nofile = 16

pub data ProcState : Type 0 where
  unused embryo sleeping runnable running zombie : ProcState

abbrev pub is_unused : ProcState → Bool
is_unused ProcState.unused = true
is_unused _ = false

abbrev pub is_sleeping : ProcState → Bool
is_sleeping ProcState.sleeping = true
is_sleeping _ = false

abbrev pub is_runnable : ProcState → Bool
is_runnable ProcState.runnable = true
is_runnable _ = false

abbrev pub is_zombie : ProcState → Bool
is_zombie ProcState.zombie = true
is_zombie _ = false

-- A channel is the address of what is waited for: a process, the tick counter, another object.
pub data Chan : Type 0 where
  null ticks : Chan
  proc other : ℕ → Chan

unfoldable pub chan_eq : Chan → Chan → Bool
chan_eq Chan.null Chan.null = true
chan_eq Chan.ticks Chan.ticks = true
chan_eq (Chan.proc i) (Chan.proc j) = i == j
chan_eq (Chan.other a) (Chan.other b) = a == b
chan_eq _ _ = false

-- Where `swtch` resumes a process: `forkret` when it has never run, else its call of `sched`.
pub data Resume : Type 0 where
  at_forkret in_sched : Resume

-- A trap frame: the register of a system call's result, and the others.
pub record Frame : Type 0 where
  pub eax : ℕ
  pub esp : ℕ
  pub others : List ℕ

-- `struct proc`. Pointers to pages and files are numbers, 0 for null.
pub record Proc : Type 0 where
  pub sz : ℕ
  pub pgdir : ℕ
  pub kstack : ℕ
  pub state : ProcState
  pub pid : ℕ
  pub parent : Option ℕ
  pub tf : Frame
  pub context : Resume
  pub chan : Chan
  pub killed : Bool
  pub ofile : List ℕ
  pub cwd : ℕ
  pub name : List ℕ
  pub ticket : ℕ
  pub sleep_ticks : ℕ
  pub sleep_ticks_count : ℕ
  pub run_ticks : ℕ
  pub boostsleft : ℕ

abbrev pub Table : Type 0
Table = List Proc

-- A `for` loop that stops at the first slot which passes the test, and changes that slot.
unfoldable pub change_first : (Proc → Bool) → (Proc → Proc) → Table → Option Table
change_first test f [] = none
change_first test f (p ∷ ps) =
    let rest = change_first test f ps in
    if test p then some (f p ∷ ps) else elim rest [ none ↦ none | some qs ↦ some (p ∷ qs) ]

-- The index of the first slot which passes the test.
unfoldable pub find_slot : (Proc → Bool) → ℕ → Table → Option ℕ
find_slot test i [] = none
find_slot test i (p ∷ ps) = let rest = find_slot test (i + 1) ps in if test p then some i else rest

-- Writes through a pointer to slot `i`.
unfoldable pub modify : ℕ → (Proc → Proc) → Table → Table
modify i f [] = []
modify zero f (p ∷ ps) = f p ∷ ps
modify (suc i) f (p ∷ ps) = p ∷ modify i f ps
