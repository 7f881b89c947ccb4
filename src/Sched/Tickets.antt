-- ===== src/Sched/Tickets.antt =====
-- P2A: Scheduling/proc.c: `settickets` and `getpinfo`, and their system calls in sysproc.c.
pub mod Report
use compsci537_introduction.Common.{
  ℕ, Option, none, some, List, map, ◌==◌, ◌||◌, not, leb, if◌then◌else◌,
}
use compsci537_introduction.Common.Words.{sign_bit, is_positive}
use compsci537_introduction.Sched.Table.{Proc, Table, is_unused, change_first}

-- `settickets`: the new table, none for -1.
unfoldable pub settickets : ℕ → ℕ → Table → Option Table
unfolding change_first
settickets pid n_tickets ps =
    change_first (λ p. p.pid == pid) (λ p. record p { ticket = n_tickets }) ps

-- `sys_settickets` on its two `int`s.
unfoldable pub sys_settickets : ℕ → ℕ → Table → Option Table
unfolding settickets
sys_settickets pid n_tickets ps =
    if leb sign_bit pid || not (is_positive n_tickets) then none else settickets pid n_tickets ps

-- A row of `struct pstat`.
pub record Row : Type 0 where
  pub inuse : ℕ
  pub pid : ℕ
  pub tickets : ℕ
  pub runticks : ℕ
  pub boostsleft : ℕ

abbrev pub row : Proc → Row
row p = record {
  inuse = if is_unused p.state then 0 else 1;
  pid = p.pid;
  tickets = p.ticket;
  runticks = p.run_ticks;
  boostsleft = p.boostsleft;
}

-- `getpinfo`: the rows of `pstat`, in the order of the table.
unfoldable pub getpinfo : Table → List Row
getpinfo ps = map row ps
