-- ===== src/Sched/Lottery/Fair.antt =====
-- P2A: Scheduling/proc.c: `hold_lottery` and the tickets of the processes.
use compsci537_introduction.Common.{
  ℕ, zero, suc, ◌+◌, ◌-◌, ◌*◌, ◌%◌, ◌≤◌, ◌<◌, ◌≡◌, refl, ap, ◌↔◌, inl, inr, true, Option, none,
  some, [], ◌∷◌, map, arith, ltb, if◌then◌else◌, Bool-cases, get_elem?,
}
use compsci537_introduction.Common.Words.{u32_mod, sign_bit, is_positive}
use compsci537_introduction.Sched.Table.{Proc, Table, is_runnable}
use compsci537_introduction.Sched.Lottery.{
  rand, add_tickets, spend, claim, lottery_loop, hold_lottery, count_tickets,
}

-- What a process holds in the lottery.
abbrev pub weight : Proc → ℕ
weight p =
    if is_runnable p.state then (if is_positive p.boostsleft then 2 * p.ticket else p.ticket) else 0

unfoldable pub total : Table → ℕ
total [] = 0
total (p ∷ ps) = weight p + total ps

-- What the slots before slot `i` hold.
pub before : ℕ → Table → ℕ
before i [] = 0
before zero (p ∷ ps) = 0
before (suc i) (p ∷ ps) = weight p + before i ps

-- What slot `i` holds, 0 outside the table.
pub weight_at : ℕ → Table → ℕ
weight_at i [] = 0
weight_at zero (p ∷ ps) = weight p
weight_at (suc i) (p ∷ ps) = weight_at i ps

pub count_tickets-total :
    (c : ℕ) (ps : Table) → c + total ps < u32_mod → count_tickets c ps ≡ c + total ps
unfolding count_tickets total
count_tickets-total c [] h = omega arith
count_tickets-total c (p ∷ ps) h = ground (arith, count_tickets-total (add_tickets c p) ps)

-- A winner that is found stays.
lottery_loop-some : (w i c j : ℕ) (ps : Table) → (lottery_loop w i c (some j) ps).0 ≡ some j
unfolding lottery_loop
lottery_loop-some w i c j [] = refl
lottery_loop-some w i c j (p ∷ ps) = lottery_loop-some w (i + 1) (add_tickets c p) j ps

-- Every runnable process uses up a boost, whoever wins.
pub lottery_loop-spend :
    (w i c : ℕ) (o : Option ℕ) (ps : Table) → (lottery_loop w i c o ps).1 ≡ map spend ps
unfolding lottery_loop
lottery_loop-spend w i c o [] = refl
lottery_loop-spend w i c o (p ∷ ps) =
    ap (λ qs. spend p ∷ qs)
      (lottery_loop-spend w (i + 1) (add_tickets c p) (claim w i (add_tickets c p) o p) ps)

-- The slot that holds ticket number `d`, counted from slot `i` on.
pub pick : ℕ → ℕ → Table → Option ℕ
pick i d [] = none
pick i d (p ∷ ps) =
    let rest = pick (i + 1) (d - weight p) ps in if ltb d (weight p) then some i else rest

add_tickets_lem : (c : ℕ) (p : Proc) → c + weight p < u32_mod → add_tickets c p ≡ c + weight p
add_tickets_lem c p h = ground arith

claim_lem :
    (w i c : ℕ) (p : Proc)
    → c ≤ w
    → claim w i (c + weight p) none p ≡ (if ltb (w - c) (weight p) then some i else none)
claim_lem w i c p h = ground arith

lottery_loop-pick :
    (w i c : ℕ) (ps : Table)
    → c ≤ w
    → c + total ps < u32_mod
    → (lottery_loop w i c none ps).0 ≡ pick i (w - c) ps
unfolding lottery_loop pick total
lottery_loop-pick w i c [] h k = refl
lottery_loop-pick w i c (p ∷ ps) h k =
    rw (add_tickets_lem c p (omega arith), claim_lem w i c p h)
      (elim (Bool-cases (ltb (w - c) (weight p))) [
        | inl e ↦ rw e (lottery_loop-some w (i + 1) (c + weight p) i ps)
        | inr e ↦
            let same : w - (c + weight p) ≡ w - c - weight p = omega arith in
            rw (e, ← same)
              (lottery_loop-pick w (i + 1) (c + weight p) ps (ground arith) (omega arith))
      ])

pick-ge : (i d k : ℕ) (ps : Table) → pick i d ps ≡ some k → i ≤ k
unfolding pick
pick-ge i d k [] e = cc
pick-ge i d k (p ∷ ps) e = ground (arith, pick-ge (i + 1) (d - weight p) k ps)

-- The slot that `pick` finds is the one whose tickets cover `d`.
pick-covers :
    (i d k j : ℕ) (ps : Table)
    → k ≡ i + j
    → pick i d ps ≡ some k
    → (before j ps ≤ d) × (d < before j ps + weight_at j ps)
unfolding pick before weight_at
pick-covers i d k j [] q e = cc
pick-covers i d k zero (p ∷ ps) q e = ground (arith, pick-ge (i + 1) (d - weight p) k ps)
pick-covers i d k (suc j) (p ∷ ps) q e = ground (arith, pick-covers (i + 1) (d - weight p) k j ps)

covers-pick :
    (i d k j : ℕ) (ps : Table)
    → k ≡ i + j
    → before j ps ≤ d
    → d < before j ps + weight_at j ps
    → pick i d ps ≡ some k
unfolding pick before weight_at
covers-pick i d k j [] q l h = absurd (omega arith)
covers-pick i d k zero (p ∷ ps) q l h = ground arith
covers-pick i d k (suc j) (p ∷ ps) q l h = ground (arith, covers-pick (i + 1) (d - weight p) k j ps)

-- A ticket number below the total belongs to some slot.
pick-total : (i d : ℕ) (ps : Table) → d < total ps → (k : ℕ) × (pick i d ps ≡ some k)
unfolding pick total
pick-total i d [] h = absurd (omega arith)
pick-total i d (p ∷ ps) h = elim (Bool-cases (ltb d (weight p))) [
  | inl e ↦ (i, rw e)
  | inr e ↦ let (k, f) = pick-total (i + 1) (d - weight p) ps (ground arith) in (k, rw e f)
]

-- The process in a slot that holds tickets can run.
weight_at-runnable :
    (i : ℕ) (ps : Table)
    → 0 < weight_at i ps
    → (p : Proc) × (get_elem? ps i ≡ some p) × (is_runnable p.state ≡ true)
unfolding weight_at
weight_at-runnable i [] h = absurd (omega arith)
weight_at-runnable zero (p ∷ ps) h = (p, refl, ground arith)
weight_at-runnable (suc i) (p ∷ ps) h = weight_at-runnable i ps h

before-le : (i : ℕ) (ps : Table) → before i ps + weight_at i ps ≤ total ps
unfolding before weight_at total
before-le i [] = omega arith
before-le zero (p ∷ ps) = omega arith
before-le (suc i) (p ∷ ps) = omega (arith, before-le i ps)

module _ (seed : ℕ) (ps : Table) (some_tickets : 0 < total ps) (small : total ps < sign_bit) where
  -- The number that the lottery draws.
  abbrev pub drawn : ℕ
  drawn = rand seed % total ps

  drawn-lt : drawn < total ps
  drawn-lt = omega arith

  -- `hold_lottery` on the total that `scheduler` counts: the slot that holds the drawn number wins,
  -- and every runnable process uses up a boost.
  pub hold_lottery-pick :
      hold_lottery (count_tickets 0 ps) seed ps ≡ (pick 0 drawn ps, rand seed, map spend ps)
  unfolding hold_lottery
  hold_lottery-pick =
      let counted : count_tickets 0 ps ≡ total ps =
        omega (arith, count_tickets-total 0 ps (omega arith)) in
      rw counted
        (ground (arith, lottery_loop-pick drawn 0 0 ps, lottery_loop-spend drawn 0 0 none ps))

  -- If some process can run and the tickets add up to less than 2^31, `hold_lottery` on the total
  -- that `scheduler` counts returns slot `i` exactly when the drawn number lies among the numbers
  -- of that slot: they start behind the tickets of the slots before it, and there are as many as
  -- the slot's process has tickets, twice as many if it has a boost, none if it is not runnable.
  pub lottery_fair :
      (i : ℕ)
      → ((hold_lottery (count_tickets 0 ps) seed ps).0 ≡ some i)
        ↔ ((before i ps ≤ drawn) × (drawn < before i ps + weight_at i ps))
  lottery_fair i = rw hold_lottery-pick (
    (λ e. pick-covers 0 drawn i i ps (omega arith) e),
    (λ h. covers-pick 0 drawn i i ps (omega arith) h.0 h.1),
  )

  pub winner_exists :
      (i : ℕ) × (p : Proc) × (pick 0 drawn ps ≡ some i)
      × (get_elem? ps i ≡ some p)
      × (is_runnable p.state ≡ true)
  winner_exists =
      let (i, found) = pick-total 0 drawn ps drawn-lt in
      let covers = pick-covers 0 drawn i i ps (omega arith) found in
      let (p, here, can_run) = weight_at-runnable i ps (omega arith) in (i, p, found, here, can_run)
