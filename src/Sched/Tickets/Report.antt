-- ===== src/Sched/Tickets/Report.antt =====
-- P2A: Scheduling/proc.c: what `getpinfo` reports after `settickets`.
use compsci537_introduction.Common.{
  ℕ, ◌<◌, ◌≡◌, ◌∙◌, ◌≢◌, Option, none, some, arith, get_elem?, get_elem?-map, ◌==◌,
}
use compsci537_introduction.Common.Words.{sign_bit}
use compsci537_introduction.Sched.Table.{Proc, Table, modify}
use compsci537_introduction.Sched.Table.Slots.{
  First, NoneOf, found, missing, Search-slots, change_first-found, change_first-missing,
  get_elem?-modify_self, get_elem?-modify_ne,
}
use compsci537_introduction.Sched.Tickets.{settickets, sys_settickets, row, getpinfo}

-- How `settickets` ends.
pub data Assigned (pid n : ℕ) (ps : Table) : Option Table → Type 0 where
  no_such : NoneOf (λ p. p.pid == pid) ps → Assigned pid n ps none
  done :
      (i : ℕ) (p : Proc) (qs : Table)
      → First (λ p. p.pid == pid) ps i p
      → get_elem? (getpinfo qs) i ≡ some (record (row p) { tickets = n })
      → ((j : ℕ) (q : Proc)
          → i ≢ j
          → get_elem? ps j ≡ some q
          → get_elem? (getpinfo qs) j ≡ some (row q))
      → Assigned pid n ps (some qs)

-- For a pid that is not negative and a positive number of tickets `sys_settickets` fails exactly
-- if no slot has the pid; else `getpinfo` then reports the new number of tickets for the first slot
-- that has it, its other columns unchanged, and the same row as before for every other slot.
pub sys_settickets-Assigned :
    (pid n : ℕ) (ps : Table)
    → pid < sign_bit
    → 0 < n
    → n < sign_bit
    → Assigned pid n ps (sys_settickets pid n ps)
unfolding sys_settickets settickets getpinfo
sys_settickets-Assigned pid n ps valid positive small =
    let test = λ (p : Proc). p.pid == pid in
    let f = λ (p : Proc). record p { ticket = n } in
    let asked : sys_settickets pid n ps ≡ settickets pid n ps = ground arith in
    rw asked (elim (Search-slots test ps) [
      | missing h ↦ rw (change_first-missing test f ps h) (no_such h)
      | found i p h ↦ rw (change_first-found test f ps i p h) (
          done i p (modify i f ps) h
            (get_elem?-map row (modify i f ps) i (f p) (get_elem?-modify_self i f ps p h.here))
            (λ j q ne e.
              get_elem?-map row (modify i f ps) j q (get_elem?-modify_ne i j f ps ne ∙ e)))
    ])
