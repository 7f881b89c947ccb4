-- ===== src/Sched/Lottery.antt =====
-- P2A: Scheduling/proc.c: `rand`, `hold_lottery` and one turn of the loop in `scheduler`.
pub mod Fair
pub mod Turns
pub mod Winner
use compsci537_introduction.Common.{
  ℕ, ◌+◌, ◌*◌, ◌%◌, bit_and, Bool, false, Option, none, some, List, [], ◌∷◌, ltb, leb, ◌==◌, ◌||◌,
  ◌&&◌, not, get_elem?, if◌then◌else◌,
}
use compsci537_introduction.Common.Words.{u32, sign_bit, is_positive}
use compsci537_introduction.Sched.Table.{Proc, ProcState, Table, is_runnable, modify}

-- RAND_MAX
abbrev pub rand_max : ℕ
rand_max = 2147483647

-- The new `rseed`, which is also what `rand` returns.
unfoldable pub rand : ℕ → ℕ
rand rseed = bit_and (u32 (rseed * 1103515245 + 12345)) rand_max

-- `count` or `total_tickets` after a slot's turn: a boosted process counts twice.
abbrev pub add_tickets : ℕ → Proc → ℕ
add_tickets count p =
    if is_runnable p.state
    then (if is_positive p.boostsleft then u32 (count + 2 * p.ticket) else u32 (count + p.ticket))
    else count

-- The slot after its turn in the lottery: a runnable process uses up one boost.
abbrev pub spend : Proc → Proc
spend p =
    if is_runnable p.state
    then (if is_positive p.boostsleft
        then record p { boostsleft = u32 (p.boostsleft + 4294967295) }
        else p)
    else p

-- `winner` and `ifFound` after a slot's turn.
abbrev pub claim : ℕ → ℕ → ℕ → Option ℕ → Proc → Option ℕ
claim ticket i count (some j) p = some j
claim ticket i count none p =
    if is_runnable p.state then (if ltb ticket count then some i else none) else none

-- The loop of `hold_lottery` from slot `i` on.
unfoldable pub lottery_loop : ℕ → ℕ → ℕ → Option ℕ → Table → Option ℕ × Table
lottery_loop ticket i count winner [] = (winner, [])
lottery_loop ticket i count winner (p ∷ ps) =
    let count' = add_tickets count p in
    let (last, ps') = lottery_loop ticket (i + 1) count' (claim ticket i count' winner p) ps in
    (last, spend p ∷ ps')

-- `hold_lottery`: the winner, `rseed` and the table afterwards.
unfoldable pub hold_lottery : ℕ → ℕ → Table → Option ℕ × ℕ × Table
unfolding lottery_loop rand
hold_lottery total_tickets rseed ps =
    if (total_tickets == 0) || leb sign_bit total_tickets
    then (none, rseed, ps)
    else (let rseed' = rand rseed in
        let (winner, ps') = lottery_loop (rseed' % total_tickets) 0 0 none ps in
        (winner, rseed', ps'))

-- The first loop of `scheduler`.
unfoldable pub count_tickets : ℕ → Table → ℕ
count_tickets total [] = total
count_tickets total (p ∷ ps) = count_tickets (add_tickets total p) ps

-- One turn of `scheduler`: nothing to run, a panic of `switchuvm` at a null process, or a switch
-- to a process.
pub data Turn : Type 0 where
  idle panic : Turn
  run : ℕ → Turn

-- `p->state = RUNNING; p->runTicks += 1;`
abbrev pub start : Proc → Proc
start p = record p { state = ProcState.running; run_ticks = u32 (p.run_ticks + 1) }

-- The tests of `switchuvm` before it loads the page table.
abbrev pub can_switch : Option Proc → Bool
can_switch none = false
can_switch (some p) = not (p.kstack == 0) && not (p.pgdir == 0)

-- `switchuvm(p); p->state = RUNNING; ...` for the slot that `hold_lottery` returned.
unfoldable pub switch_to : Option ℕ → Table → Turn × Table
unfolding modify
switch_to none ps = (panic, ps)
switch_to (some i) ps =
    if can_switch (get_elem? ps i) then (run i, modify i start ps) else (panic, ps)

unfoldable pub scheduler_turn : ℕ → Table → Turn × ℕ × Table
unfolding count_tickets switch_to
scheduler_turn rseed ps =
    let total_tickets = count_tickets 0 ps in
    if total_tickets == 0
    then (idle, rseed, ps)
    else (let (winner, rseed', ps') = hold_lottery total_tickets rseed ps in
        let (turn, ps'') = switch_to winner ps' in (turn, rseed', ps''))
