-- ===== src/Sched/Sleep.antt =====
-- P2A: Scheduling/proc.c: `sleep`, `wakeup1`, `kill`, `yield`, and the clock tick of trap.c with
-- `sys_sleep` of sysproc.c. Each function is what runs under `ptable.lock`, as one step.
pub mod Wake
use compsci537_introduction.Common.{
  ℕ, ◌+◌, Bool, true, Option, none, some, List, [], ◌∷◌, map, ◌==◌, ◌&&◌, if◌then◌else◌,
}
use compsci537_introduction.Common.Words.{u32, ge_signed}
use compsci537_introduction.Sched.Table.{
  Proc, ProcState, Resume, Chan, chan_eq, Table, is_sleeping, modify, change_first,
}

-- The body of the loop in `wakeup1`.
unfoldable pub wake_one : Chan → Proc → Proc
unfolding chan_eq
wake_one chan p =
    if is_sleeping p.state
    then (let q = record p {
      boostsleft = u32 (p.boostsleft + 1);
      sleep_ticks_count = u32 (p.sleep_ticks_count + 1);
    } in
        if chan_eq p.chan chan && ge_signed q.sleep_ticks_count q.sleep_ticks
        then record q { state = ProcState.runnable; sleep_ticks_count = 0; sleep_ticks = 0 }
        else q)
    else p

unfoldable pub wakeup1 : Chan → Table → Table
wakeup1 chan ps = map (wake_one chan) ps

-- `sleep` up to its call of `sched`, which saves the context of the process in slot `i`.
unfoldable pub go_to_sleep : ℕ → Chan → Table → Table
unfolding modify
go_to_sleep i chan ps =
    modify i (λ p. record p { chan = chan; state = ProcState.sleeping; context = Resume.in_sched })
      ps

-- `sleep` behind its call of `sched`.
unfoldable pub tidy_up : ℕ → Table → Table
unfolding modify
tidy_up i ps = modify i (λ p. record p { chan = Chan.null }) ps

-- `yield`, up to its call of `sched`.
unfoldable pub yield : ℕ → Table → Table
unfolding modify
yield i ps = modify i (λ p. record p { state = ProcState.runnable; context = Resume.in_sched }) ps

-- What `kill` does to the process that it finds.
abbrev pub kill_one : Proc → Proc
kill_one p =
    let q = record p { killed = true } in
    if is_sleeping p.state then record q { state = ProcState.runnable } else q

-- `kill`: the new table, none for -1.
unfoldable pub kill : ℕ → Table → Option Table
unfolding change_first
kill pid ps = change_first (λ p. p.pid == pid) kill_one ps

-- `sys_sleep` up to the switch: `sleepTicks = n; sleep(&ticks, &tickslock)`.
unfoldable pub sys_sleep : ℕ → ℕ → Table → Table
unfolding modify go_to_sleep
sys_sleep i n ps = go_to_sleep i Chan.ticks (modify i (λ p. record p { sleep_ticks = n }) ps)

-- The timer interrupt on the first CPU: `ticks++; wakeup(&ticks)`.
unfoldable pub timer_tick : ℕ → Table → ℕ × Table
unfolding wakeup1
timer_tick ticks ps = (u32 (ticks + 1), wakeup1 Chan.ticks ps)

-- One after another, the wakeups of other kernel code between two moments.
unfoldable pub wakeups : List Chan → Table → Table
unfolding wakeup1
wakeups [] ps = ps
wakeups (c ∷ cs) ps = wakeups cs (wakeup1 c ps)
