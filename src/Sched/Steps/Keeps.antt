-- ===== src/Sched/Steps/Keeps.antt =====
-- P2A: Scheduling/proc.c: the operations that change no pid, and neither take nor free a slot.
use compsci537_introduction.Common.{
  ℕ, zero, suc, ◌+◌, ◌≡◌, refl, sym, ◌∙◌, true, false, Bool, Option, some, map, arith, get_elem?,
  get_elem?-map, length, length-map, inl, inr, ◌⊎◌, Bool-cases, Option-cases, ◌==◌, ==_iff,
  if◌then◌else◌,
}
use compsci537_introduction.Sched.Table.{
  Proc, Chan, Table, is_unused, is_zombie, is_runnable, modify,
}
use compsci537_introduction.Sched.Table.Slots.{
  get_elem?-modify_self, get_elem?-modify_ne, length-modify, found, missing, Search-slots,
  change_first-found, change_first-missing,
}
use compsci537_introduction.Sched.Sleep.{
  wake_one, wakeup1, go_to_sleep, tidy_up, yield, sys_sleep, kill, kill_one,
}
use compsci537_introduction.Sched.Tickets.{settickets, sys_settickets}
use compsci537_introduction.Sched.Lottery.{spend, start, scheduler_turn}
use compsci537_introduction.Sched.Lottery.Winner.{
  Turned, unchanged, spent, started, scheduler_turn-Turned,
}
use compsci537_introduction.Sched.Life.{adopt_slot, adopt, reparent, exit_table, chan_of, points_to}

-- A process with the same pid, in use or not as before.
pub record SamePid (p q : Proc) : Type 0 where
  pub pid : q.pid ≡ p.pid
  pub unused : is_unused q.state ≡ is_unused p.state

pub record Keeps (ps qs : Table) : Type 0 where
  pub same_length : length qs ≡ length ps
  pub each :
      (j : ℕ) (p : Proc)
      → get_elem? ps j ≡ some p
      → (q : Proc) × (get_elem? qs j ≡ some q) × SamePid p q

pub Keeps-refl : (ps : Table) → Keeps ps ps
Keeps-refl ps = record {
  same_length = refl;
  each = λ j p e. (p, e, record { pid = refl; unused = refl });
}

pub Keeps-trans : (ps qs rs : Table) → Keeps ps qs → Keeps qs rs → Keeps ps rs
Keeps-trans ps qs rs a b = record {
  same_length = b.same_length ∙ a.same_length;
  each = λ j p e.
      let (q, f, s) = a.each j p e in
      let (r, g, t) = b.each j q f in
      (r, g, record { pid = t.pid ∙ s.pid; unused = t.unused ∙ s.unused });
}

pub Keeps-map :
    (f : Proc → Proc) (ps : Table) → ((p : Proc) → SamePid p (f p)) → Keeps ps (map f ps)
Keeps-map f ps h = record {
  same_length = length-map f ps;
  each = λ j p e. (f p, get_elem?-map f ps j p e, h p);
}

pub Keeps-modify :
    (i : ℕ) (f : Proc → Proc) (ps : Table)
    → ((p : Proc) → get_elem? ps i ≡ some p → SamePid p (f p))
    → Keeps ps (modify i f ps)
Keeps-modify i f ps h = record {
  same_length = length-modify i f ps;
  each = λ j p e. slot j p e (Bool-cases (i == j));
}
  where
    slot :
        (j : ℕ) (p : Proc)
        → get_elem? ps j ≡ some p
        → ((i == j) ≡ true) ⊎ ((i == j) ≡ false)
        → (q : Proc) × (get_elem? (modify i f ps) j ≡ some q) × SamePid p q
    slot j p e (inl y) =
        let same : i ≡ j = (==_iff i j).0 y in
        let e' : get_elem? ps i ≡ some p = rw same e in
        (f p, rw (← same) (get_elem?-modify_self i f ps p e'), h p e')
    slot j p e (inr n) =
        (p, get_elem?-modify_ne i j f ps (ground arith) ∙ e, record { pid = refl; unused = refl })

wake_one-SamePid : (c : Chan) (p : Proc) → SamePid p (wake_one c p)
unfolding wake_one
wake_one-SamePid c p = ground arith

pub wakeup1-Keeps : (c : Chan) (ps : Table) → Keeps ps (wakeup1 c ps)
unfolding wakeup1
wakeup1-Keeps c ps = Keeps-map (wake_one c) ps (wake_one-SamePid c)

rouse-Keeps : (b : Bool) (c : Chan) (ps : Table) → Keeps ps (if b then wakeup1 c ps else ps)
rouse-Keeps true c ps = wakeup1-Keeps c ps
rouse-Keeps false c ps = Keeps-refl ps

adopt_slot-Keeps : (cur init i : ℕ) (p : Proc) (ps : Table) → Keeps ps (adopt_slot cur init i p ps)
unfolding adopt_slot
adopt_slot-Keeps cur init i p ps = elim (Bool-cases (points_to p.parent cur)) [
  | inr n ↦ rw n (Keeps-refl ps)
  | inl y ↦
      let f = λ (q : Proc). record q { parent = some init } in
      rw y (
        Keeps-trans ps (modify i f ps) _
          (Keeps-modify i f ps (λ q e. record { pid = refl; unused = refl }))
          (rouse-Keeps (is_zombie p.state) (Chan.proc init) (modify i f ps)))
]

adopt-Keeps : (cur init i : ℕ) (ps : Table) → Keeps ps (adopt cur init i ps)
unfolding adopt
adopt-Keeps cur init i ps = elim (Option-cases (get_elem? ps i)) [
  | inl n ↦ rw (n, adopt) (Keeps-refl ps)
  | inr (r, s) ↦ rw (s, adopt) (adopt_slot-Keeps cur init i r ps)
]

reparent-Keeps : (cur init n i : ℕ) (ps : Table) → Keeps ps (reparent cur init n i ps)
unfolding reparent
reparent-Keeps cur init zero i ps = Keeps-refl ps
reparent-Keeps cur init (suc n) i ps =
    Keeps-trans ps (adopt cur init i ps) _ (adopt-Keeps cur init i ps)
      (reparent-Keeps cur init n (i + 1) (adopt cur init i ps))

-- The process that a table which is kept holds in slot `j` is the old one's.
Keeps-at :
    (ps qs : Table) (j : ℕ) (p q : Proc)
    → Keeps ps qs
    → get_elem? ps j ≡ some p
    → get_elem? qs j ≡ some q
    → SamePid p q
Keeps-at ps qs j p q k e f = let (r, g, s) = k.each j p e in let one : r ≡ q = cc in rw one at s

-- A slot in use may get any other state.
use_slot-Keeps :
    (ps qs : Table) (cur : ℕ) (p : Proc) (f : Proc → Proc)
    → Keeps ps qs
    → get_elem? ps cur ≡ some p
    → is_unused p.state ≡ false
    → ((q : Proc) → (f q).pid ≡ q.pid)
    → ((q : Proc) → is_unused (f q).state ≡ false)
    → Keeps ps (modify cur f qs)
use_slot-Keeps ps qs cur p f k e used pid state = Keeps-trans ps qs (modify cur f qs) k (
    Keeps-modify cur f qs (λ q g.
      let s = Keeps-at ps qs cur p q k e g in
      record { pid = pid q; unused = state q ∙ sym (s.unused ∙ used) }))

module _ (ps : Table) (cur : ℕ) (p : Proc) (here : get_elem? ps cur ≡ some p)
    (used : is_unused p.state ≡ false) where
  pub yield-Keeps : Keeps ps (yield cur ps)
  unfolding yield
  yield-Keeps = use_slot-Keeps ps ps cur p _ (Keeps-refl ps) here used (λ q. refl) (λ q. refl)

  pub go_to_sleep-Keeps : (chan : Chan) → Keeps ps (go_to_sleep cur chan ps)
  unfolding go_to_sleep
  go_to_sleep-Keeps chan =
      use_slot-Keeps ps ps cur p _ (Keeps-refl ps) here used (λ q. refl) (λ q. refl)

  pub sys_sleep-Keeps : (n : ℕ) → Keeps ps (sys_sleep cur n ps)
  unfolding sys_sleep go_to_sleep
  sys_sleep-Keeps n =
      use_slot-Keeps ps _ cur p _
        (Keeps-modify cur _ ps (λ q e. record { pid = refl; unused = refl })) here used (λ q. refl)
        (λ q. refl)

  pub exit_table-Keeps :
      (init : ℕ) (o : Option ℕ) (f : Proc → Proc)
      → ((q : Proc) → SamePid q (f q))
      → Keeps ps (exit_table cur init o (modify cur f ps))
  unfolding exit_table
  exit_table-Keeps init o f same =
      let closed = modify cur f ps in
      use_slot-Keeps ps _ cur p _
        (Keeps-trans ps closed _ (Keeps-modify cur f ps (λ q e. same q)) (
          Keeps-trans closed (wakeup1 (chan_of o) closed) _ (wakeup1-Keeps (chan_of o) closed)
            (reparent-Keeps cur init (length closed) 0 (wakeup1 (chan_of o) closed))))
        here used (λ q. refl) (λ q. refl)

pub tidy_up-Keeps : (cur : ℕ) (ps : Table) → Keeps ps (tidy_up cur ps)
unfolding tidy_up
tidy_up-Keeps cur ps = Keeps-modify cur _ ps (λ q e. record { pid = refl; unused = refl })

kill_one-SamePid : (p : Proc) → SamePid p (kill_one p)
kill_one-SamePid p = ground arith

pub kill-Keeps : (pid : ℕ) (ps qs : Table) → kill pid ps ≡ some qs → Keeps ps qs
unfolding kill
kill-Keeps pid ps qs e = elim (Search-slots (λ p. p.pid == pid) ps) [
  | missing h ↦ let f = change_first-missing (λ p. p.pid == pid) kill_one ps h in cc
  | found i p h ↦
      let f = change_first-found (λ p. p.pid == pid) kill_one ps i p h in
      let same : modify i kill_one ps ≡ qs = cc in
      rw (← same) (Keeps-modify i kill_one ps (λ q g. kill_one-SamePid q))
]

pub sys_settickets-Keeps :
    (pid n : ℕ) (ps qs : Table) → sys_settickets pid n ps ≡ some qs → Keeps ps qs
unfolding sys_settickets settickets
sys_settickets-Keeps pid n ps qs e = elim (Search-slots (λ p. p.pid == pid) ps) [
  | missing h ↦
      let f = change_first-missing (λ p. p.pid == pid) (λ p. record p { ticket = n }) ps h in
      absurd (ground arith)
  | found i p h ↦
      let f = change_first-found (λ p. p.pid == pid) (λ p. record p { ticket = n }) ps i p h in
      let same : modify i (λ p. record p { ticket = n }) ps ≡ qs = ground arith in
      rw (← same) (Keeps-modify i _ ps (λ q g. record { pid = refl; unused = refl }))
]

spend-SamePid : (p : Proc) → SamePid p (spend p)
spend-SamePid p = ground arith

start-SamePid : (p : Proc) → is_runnable p.state ≡ true → SamePid p (start p)
start-SamePid p h = ground arith

pub scheduler_turn-Keeps : (rseed : ℕ) (ps : Table) → Keeps ps (scheduler_turn rseed ps).2
scheduler_turn-Keeps rseed ps = go (scheduler_turn rseed ps).2 (scheduler_turn-Turned rseed ps)
  where
    go : (qs : Table) → Turned ps qs → Keeps ps qs
    go qs (unchanged e) = rw e (Keeps-refl ps)
    go qs (spent e) = rw e (Keeps-map spend ps spend-SamePid)
    go qs (started i p g r e) = rw e (
        Keeps-trans ps (map spend ps) _ (Keeps-map spend ps spend-SamePid) (
          Keeps-modify i start (map spend ps) (λ q h.
            let there = get_elem?-map spend ps i p g in
            let one : spend p ≡ q = cc in start-SamePid q (rw (← one) (ground arith)))))
