-- ===== src/Sched/Lottery/Winner.antt =====
-- P2A: Scheduling/proc.c: the process that `scheduler` starts.
use compsci537_introduction.Common.{
  ℕ, suc, ◌+◌, ◌%◌, ◌≡◌, refl, true, ◌⊎◌, inl, inr, Option, none, some, [], ◌∷◌, map, arith,
  get_elem?, Bool-cases, ◌==◌, ◌||◌, leb,
}
use compsci537_introduction.Common.Words.{sign_bit}
use compsci537_introduction.Sched.Table.{Proc, Table, is_runnable, modify}
use compsci537_introduction.Sched.Lottery.{
  rand, add_tickets, claim, spend, start, lottery_loop, hold_lottery, count_tickets, can_switch,
  switch_to, scheduler_turn,
}
use compsci537_introduction.Sched.Lottery.Fair.{lottery_loop-spend}

-- The slot that the lottery returns holds a runnable process.
lottery_loop-runnable :
    (w i c : ℕ) (o : Option ℕ) (ps : Table) (k : ℕ)
    → (lottery_loop w i c o ps).0 ≡ some k
    → (o ≡ some k)
      ⊎ ((j : ℕ) × (p : Proc) × (k ≡ i + j)
          × (get_elem? ps j ≡ some p)
          × (is_runnable p.state ≡ true))
unfolding lottery_loop
lottery_loop-runnable w i c o [] k e = inl e
lottery_loop-runnable w i c o (p ∷ ps) k e =
    elim (lottery_loop-runnable w (i + 1) (add_tickets c p) (claim w i (add_tickets c p) o p) ps k
      e) [ inl f ↦ claimed o f | inr (j, q, s, g, r) ↦ inr (suc j, q, omega arith, g, r) ]
  where
    claimed :
        (o : Option ℕ)
        → claim w i (add_tickets c p) o p ≡ some k
        → (o ≡ some k)
          ⊎ ((j : ℕ) × (q : Proc) × (k ≡ i + j)
              × (get_elem? (p ∷ ps) j ≡ some q)
              × (is_runnable q.state ≡ true))
    claimed (some l) f = inl f
    claimed none f = inr (0, p, ground arith, refl, ground arith)

-- What a turn of `scheduler` does to the table `ps`.
pub data Turned (ps qs : Table) : Type 0 where
  unchanged : qs ≡ ps → Turned ps qs
  spent : qs ≡ map spend ps → Turned ps qs
  started :
      (i : ℕ) (p : Proc)
      → get_elem? ps i ≡ some p
      → is_runnable p.state ≡ true
      → qs ≡ modify i start (map spend ps)
      → Turned ps qs

switch_to-Turned :
    (ps : Table) (o : Option ℕ)
    → ((k : ℕ) → o ≡ some k → (p : Proc) × (get_elem? ps k ≡ some p) × (is_runnable p.state ≡ true))
    → Turned ps (switch_to o (map spend ps)).1
unfolding switch_to
switch_to-Turned ps none h = spent refl
switch_to-Turned ps (some i) h = elim (Bool-cases (can_switch (get_elem? (map spend ps) i))) [
  | inl y ↦ let (p, g, r) = h i refl in rw y (started i p g r refl)
  | inr n ↦ rw n (spent refl)
]

switch_none-Turned : (ps : Table) → Turned ps (switch_to none ps).1
unfolding switch_to
switch_none-Turned ps = unchanged refl

lottery-runnable :
    (w : ℕ) (ps : Table) (k : ℕ)
    → (lottery_loop w 0 0 none ps).0 ≡ some k
    → (p : Proc) × (get_elem? ps k ≡ some p) × (is_runnable p.state ≡ true)
lottery-runnable w ps k e = elim (lottery_loop-runnable w 0 0 none ps k e) [
  | inl f ↦ absurd (cc)
  | inr (j, p, s, g, r) ↦ let one : k ≡ j = omega arith in (p, rw one g, r)
]

hold_lottery-Turned :
    (total seed : ℕ) (ps : Table)
    → Turned ps (switch_to (hold_lottery total seed ps).0 (hold_lottery total seed ps).2).1
unfolding hold_lottery
hold_lottery-Turned total seed ps = elim (Bool-cases ((total == 0) || leb sign_bit total)) [
  | inl y ↦ rw y (switch_none-Turned ps)
  | inr n ↦
      let w = rand seed % total in
      rw (n, lottery_loop-spend w 0 0 none ps)
        (switch_to-Turned ps (lottery_loop w 0 0 none ps).0 (lottery-runnable w ps))
]

-- Whatever the tickets and the seed, a turn of `scheduler` leaves the table as it was, or uses up a
-- boost of each runnable process, or does that and starts one slot whose process was runnable.
pub scheduler_turn-Turned : (seed : ℕ) (ps : Table) → Turned ps (scheduler_turn seed ps).2
unfolding scheduler_turn
scheduler_turn-Turned seed ps = elim (Bool-cases (count_tickets 0 ps == 0)) [
  | inl y ↦ rw y (unchanged refl)
  | inr n ↦ rw n (hold_lottery-Turned (count_tickets 0 ps) seed ps)
]
