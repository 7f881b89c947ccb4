-- ===== src/Sched/Table/States.antt =====
-- P2A: Scheduling/proc.h: the tests of a process's state, as equations.
use compsci537_introduction.Common.{◌≡◌, ◌≢◌, refl, true, false}
use compsci537_introduction.Sched.Table.{ProcState, is_unused, is_sleeping, is_runnable, is_zombie}

pub is_unused-eq : (s : ProcState) → is_unused s ≡ true → s ≡ ProcState.unused
is_unused-eq ProcState.unused e = refl
is_unused-eq ProcState.embryo e = absurd cc
is_unused-eq ProcState.sleeping e = absurd cc
is_unused-eq ProcState.runnable e = absurd cc
is_unused-eq ProcState.running e = absurd cc
is_unused-eq ProcState.zombie e = absurd cc

pub is_unused-ne : (s : ProcState) → is_unused s ≡ false → s ≢ ProcState.unused
is_unused-ne s e same = let t : false ≡ true = rw (← e, same) refl in absurd cc

pub is_sleeping-eq : (s : ProcState) → is_sleeping s ≡ true → s ≡ ProcState.sleeping
is_sleeping-eq ProcState.unused e = absurd cc
is_sleeping-eq ProcState.embryo e = absurd cc
is_sleeping-eq ProcState.sleeping e = refl
is_sleeping-eq ProcState.runnable e = absurd cc
is_sleeping-eq ProcState.running e = absurd cc
is_sleeping-eq ProcState.zombie e = absurd cc

pub is_sleeping-ne : (s : ProcState) → is_sleeping s ≡ false → s ≢ ProcState.sleeping
is_sleeping-ne s e same = let t : false ≡ true = rw (← e, same) refl in absurd cc

pub is_runnable-eq : (s : ProcState) → is_runnable s ≡ true → s ≡ ProcState.runnable
is_runnable-eq ProcState.unused e = absurd cc
is_runnable-eq ProcState.embryo e = absurd cc
is_runnable-eq ProcState.sleeping e = absurd cc
is_runnable-eq ProcState.runnable e = refl
is_runnable-eq ProcState.running e = absurd cc
is_runnable-eq ProcState.zombie e = absurd cc

pub is_runnable-ne : (s : ProcState) → is_runnable s ≡ false → s ≢ ProcState.runnable
is_runnable-ne s e same = let t : false ≡ true = rw (← e, same) refl in absurd cc

pub is_zombie-eq : (s : ProcState) → is_zombie s ≡ true → s ≡ ProcState.zombie
is_zombie-eq ProcState.unused e = absurd cc
is_zombie-eq ProcState.embryo e = absurd cc
is_zombie-eq ProcState.sleeping e = absurd cc
is_zombie-eq ProcState.runnable e = absurd cc
is_zombie-eq ProcState.running e = absurd cc
is_zombie-eq ProcState.zombie e = refl

pub is_zombie-ne : (s : ProcState) → is_zombie s ≡ false → s ≢ ProcState.zombie
is_zombie-ne s e same = let t : false ≡ true = rw (← e, same) refl in absurd cc
