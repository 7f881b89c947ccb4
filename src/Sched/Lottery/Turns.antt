-- ===== src/Sched/Lottery/Turns.antt =====
-- P2A: Scheduling/proc.c: what one turn of `scheduler` does.
use mathlib.Core.Path.{subst}
use compsci537_introduction.Common.{
  ℕ, ◌≤◌, ◌<◌, ◌≡◌, ◌≢◌, true, some, map, arith, get_elem?, get_elem?-map, ◌+◌, ◌⊎◌, inl, inr, refl,
  sym, ap, ◌∙◌, Bool-cases, length, length-map,
}
use compsci537_introduction.Common.Words.{u32, u32_mod, sign_bit, is_positive}
use compsci537_introduction.Sched.Table.{Proc, ProcState, Table, is_runnable, modify}
use compsci537_introduction.Sched.Table.Slots.{
  get_elem?-modify_self, get_elem?-modify_ne, length-modify,
}
use compsci537_introduction.Sched.Table.States.{is_runnable-eq, is_runnable-ne}
use compsci537_introduction.Sched.Lottery.{
  rand, spend, start, hold_lottery, can_switch, idle, panic, run, scheduler_turn,
}
use compsci537_introduction.Sched.Lottery.Fair.{
  total, pick, drawn, count_tickets-total, hold_lottery-pick, winner_exists,
}

-- A kernel stack and a page table, as every process has that `fork` made.
pub record HasMemory (p : Proc) : Type 0 where
  pub stack : p.kstack ≢ 0
  pub pages : p.pgdir ≢ 0

-- The boosts that a process has left behind the lottery: a runnable process with boosts, which are
-- a positive `int`, has used one.
pub data Boosts (p : Proc) (left : ℕ) : Type 0 where
  used_one :
      p.state ≡ ProcState.runnable
      → p.boostsleft < sign_bit
      → left + 1 ≡ p.boostsleft
      → Boosts p left
  not_runnable : p.state ≢ ProcState.runnable → left ≡ p.boostsleft → Boosts p left
  not_positive :
      (p.boostsleft ≡ 0) ⊎ (sign_bit ≤ p.boostsleft) → left ≡ p.boostsleft → Boosts p left

-- The table `qs` after a turn in which the process of slot `i` runs: it is marked running and has one
-- more tick. Every process of the table has the boosts that the lottery leaves, and is as before else.
pub record Ran (i : ℕ) (ps qs : Table) : Type 0 where
  pub runs :
      (p : Proc)
      → get_elem? ps i ≡ some p
      → (left : ℕ) × Boosts p left
        × (get_elem? qs i
            ≡ some (record p {
              state = ProcState.running;
              run_ticks = u32 (p.run_ticks + 1);
              boostsleft = left;
            }))
  pub others :
      (j : ℕ) (p : Proc)
      → i ≢ j
      → get_elem? ps j ≡ some p
      → (left : ℕ) × Boosts p left × (get_elem? qs j ≡ some (record p { boostsleft = left }))
  pub same_length : length qs ≡ length ps

spend-Boosts : (p : Proc) → (left : ℕ) × Boosts p left × (spend p ≡ record p { boostsleft = left })
spend-Boosts p = elim (Bool-cases (is_runnable p.state)) [
  | inr n ↦ (p.boostsleft, not_runnable (is_runnable-ne p.state n) refl, rw n refl)
  | inl y ↦ elim (Bool-cases (is_positive p.boostsleft)) [
    | inr m ↦ (p.boostsleft, not_positive (ground arith) refl, rw (y, m) refl)
    | inl z ↦ (
      u32 (p.boostsleft + 4294967295),
      used_one (is_runnable-eq p.state y) (ground arith) (ground arith),
      rw (y, z) refl,
    )
  ]
]

start-Ran : (i : ℕ) (ps : Table) → Ran i ps (modify i start (map spend ps))
start-Ran i ps = record {
  runs = λ p here.
      let (left, used, same) = spend-Boosts p in
      (
        left,
        used,
        get_elem?-modify_self i start (map spend ps) (spend p) (get_elem?-map spend ps i p here)
            ∙ ap (λ q. some (start q)) same,
      );
  others = λ j p ne here.
      let (left, used, same) = spend-Boosts p in
      (
        left,
        used,
        get_elem?-modify_ne i j start (map spend ps) ne
            ∙ get_elem?-map spend ps j p here
            ∙ ap some same,
      );
  same_length = length-modify i start (map spend ps) ∙ length-map spend ps;
}

can_switch-spend : (p : Proc) → HasMemory p → can_switch (some (spend p)) ≡ true
can_switch-spend p h = ground arith

switches :
    (seed : ℕ) (ps : Table)
    → (tickets : 0 < total ps) → (small : total ps < sign_bit) → (i : ℕ) (p : Proc)
    → pick 0 (drawn seed ps tickets small) ps ≡ some i
    → get_elem? ps i ≡ some p
    → HasMemory p
    → scheduler_turn seed ps ≡ (run i, rand seed, modify i start (map spend ps))
unfolding scheduler_turn
switches seed ps tickets small i p found here memory =
    let won = hold_lottery-pick seed ps tickets small in
    let there = get_elem?-map spend ps i p here in
    let ready = can_switch-spend p memory in
    let counted = count_tickets-total 0 ps (omega arith) in
    ground (arith, won, there, ready, counted)

-- With tickets held by runnable processes, fewer than 2^31 in all, and every runnable process with a
-- kernel stack and a page table, `scheduler` never meets the null winner: it switches to a slot whose
-- process is runnable, and draws one random number. That process is marked running and has one more tick. Each
-- runnable process with boosts, itself included, has used one, and nothing else in the table
-- changes.
pub scheduler_runs :
    (seed : ℕ) (ps : Table)
    → 0 < total ps
    → total ps < sign_bit
    → ((j : ℕ) (p : Proc) → get_elem? ps j ≡ some p → p.state ≡ ProcState.runnable → HasMemory p)
    → (i : ℕ) × (p : Proc) × (get_elem? ps i ≡ some p)
      × (p.state ≡ ProcState.runnable)
      × ((scheduler_turn seed ps).0 ≡ run i)
      × ((scheduler_turn seed ps).1 ≡ rand seed)
      × Ran i ps (scheduler_turn seed ps).2
scheduler_runs seed ps tickets small memory =
    let (i, p, found, here, can_run) = winner_exists seed ps tickets small in
    let runnable = is_runnable-eq p.state can_run in
    let turn = switches seed ps tickets small i p found here (memory i p here runnable) in
    (
      i,
      p,
      here,
      runnable,
      ap (λ t. t.0) turn,
      ap (λ t. t.1) turn,
      subst (λ t. Ran i ps t.2) (sym turn) (start-Ran i ps),
    )

-- Without a ticket among the runnable processes nothing changes.
pub scheduler_idle :
    (seed : ℕ) (ps : Table) → total ps ≡ 0 → scheduler_turn seed ps ≡ (idle, seed, ps)
unfolding scheduler_turn
scheduler_idle seed ps h = ground (arith, count_tickets-total 0 ps)

-- If the tickets of the runnable processes add up to 2^31 or more (and less than 2^32), the total
-- is a negative `int`, `hold_lottery` returns null, and the kernel panics in `switchuvm`.
pub scheduler_panics :
    (seed : ℕ) (ps : Table)
    → sign_bit ≤ total ps
    → total ps < u32_mod
    → scheduler_turn seed ps ≡ (panic, seed, ps)
unfolding scheduler_turn hold_lottery
scheduler_panics seed ps large fits = ground (arith, count_tickets-total 0 ps)
