-- ===== src/Sched/Sleep/Wake.antt =====
-- P2A: Scheduling/proc.c: how long a sleep lasts, and what a kill does.
use compsci537_introduction.Common.{
  ℕ, suc, ◌+◌, ◌≤◌, ◌<◌, ◌≡◌, refl, true, false, none, some, List, [], ◌∷◌, ◌++◌, arith, get_elem?,
  get_elem?-map, All, ◌≢◌, ◌∙◌, inl, inr, Bool-cases, length, map, ◌==◌, Option,
}
use compsci537_introduction.Common.Words.{u32, sign_bit}
use compsci537_introduction.Sched.Table.{
  Proc, ProcState, Resume, Table, Chan, chan_eq, modify, is_sleeping,
}
use compsci537_introduction.Sched.Table.States.{is_sleeping-eq, is_sleeping-ne}
use compsci537_introduction.Sched.Table.Slots.{
  get_elem?-modify_self, get_elem?-modify_ne, SameBut, First, NoneOf, found, missing, Search-slots,
  change_first-found, change_first-missing,
}
use compsci537_introduction.Sched.Sleep.{
  wake_one, wakeup1, wakeups, go_to_sleep, sys_sleep, kill, kill_one,
}

-- What a list of wakeups does to one process.
wake_all : List Chan → Proc → Proc
wake_all [] p = p
wake_all (c ∷ cs) p = wake_all cs (wake_one c p)

wakeups-elem :
    (cs : List Chan) (ps : Table) (i : ℕ) (p : Proc)
    → get_elem? ps i ≡ some p
    → get_elem? (wakeups cs ps) i ≡ some (wake_all cs p)
unfolding wakeups wakeup1 wake_all
wakeups-elem [] ps i p e = e
wakeups-elem (c ∷ cs) ps i p e =
    wakeups-elem cs (map (wake_one c) ps) i (wake_one c p) (get_elem?-map (wake_one c) ps i p e)

-- `q` is `p`, still asleep after `k` wakeups, each of which gave it a boost.
pub record StillAsleep (p q : Proc) (k : ℕ) : Type 0 where
  pub asleep : q.state ≡ ProcState.sleeping
  pub chan : q.chan ≡ p.chan
  pub sleep_ticks : q.sleep_ticks ≡ p.sleep_ticks
  pub counted : q.sleep_ticks_count ≡ p.sleep_ticks_count + k
  pub boosted : u32 q.boostsleft ≡ u32 (p.boostsleft + k)

module _ (p : Proc) (s : p.state ≡ ProcState.sleeping) (small : p.sleep_ticks < sign_bit) where
  wake_one-early :
      (c : Chan) → p.sleep_ticks_count + 1 < p.sleep_ticks → StillAsleep p (wake_one c p) 1
  unfolding wake_one
  wake_one-early c h = rw s (ground arith)

  -- A wakeup on another channel leaves it asleep too.
  wake_one-elsewhere :
      (c : Chan)
      → chan_eq p.chan c ≡ false
      → p.sleep_ticks_count + 1 < sign_bit
      → StillAsleep p (wake_one c p) 1
  unfolding wake_one
  wake_one-elsewhere c other h = rw s (ground arith)

  -- The wakeup on its own channel that completes the count ends the sleep.
  wake_one-last :
      (c : Chan)
      → chan_eq p.chan c ≡ true
      → p.sleep_ticks_count + 1 < sign_bit
      → p.sleep_ticks ≤ p.sleep_ticks_count + 1
      → (wake_one c p).state ≡ ProcState.runnable
  unfolding wake_one
  wake_one-last c own h enough = rw s (ground arith)

StillAsleep-trans :
    (p q r : Proc) (k l m : ℕ)
    → StillAsleep p q k
    → StillAsleep q r l
    → m ≡ k + l
    → StillAsleep p r m
StillAsleep-trans p q r k l m a b e = ground arith

StillAsleep-refl : (p : Proc) → p.state ≡ ProcState.sleeping → StillAsleep p p 0
StillAsleep-refl p s = ground arith

-- Too few wakeups leave a process asleep, whatever their channels.
wake_all-early :
    (cs : List Chan) (p : Proc)
    → p.state ≡ ProcState.sleeping
    → p.sleep_ticks < sign_bit
    → p.sleep_ticks_count + length cs < p.sleep_ticks
    → StillAsleep p (wake_all cs p) (length cs)
unfolding wake_all
wake_all-early [] p s n h = StillAsleep-refl p s
wake_all-early (c ∷ cs) p s n h =
    let one = wake_one-early p s n c (omega arith) in
    let sleeps = one.asleep in
    let same = one.sleep_ticks in
    let count = one.counted in
    StillAsleep-trans p (wake_one c p) (wake_all cs (wake_one c p)) 1 (length cs) (suc (length cs))
      one (wake_all-early cs (wake_one c p) sleeps (omega arith) (omega arith)) (omega arith)

-- No wakeup of the list is on the channel.
abbrev pub NotOn : Chan → List Chan → Type 0
NotOn chan = All (λ c. chan_eq chan c ≡ false)

-- Wakeups on other channels never end a sleep, but they are counted.
wake_all-elsewhere :
    (cs : List Chan) (p : Proc)
    → p.state ≡ ProcState.sleeping
    → p.sleep_ticks < sign_bit
    → NotOn p.chan cs
    → p.sleep_ticks_count + length cs < sign_bit
    → StillAsleep p (wake_all cs p) (length cs)
unfolding wake_all
wake_all-elsewhere [] p s n o h = StillAsleep-refl p s
wake_all-elsewhere (c ∷ cs) p s n o h =
    let one = wake_one-elsewhere p s n c o.0 (omega arith) in
    let sleeps = one.asleep in
    let same = one.sleep_ticks in
    let count = one.counted in
    let others : NotOn (wake_one c p).chan cs = rw one.chan o.1 in
    StillAsleep-trans p (wake_one c p) (wake_all cs (wake_one c p)) 1 (length cs) (suc (length cs))
      one (wake_all-elsewhere cs (wake_one c p) sleeps (omega arith) others (omega arith))
      (omega arith)

wake_all-append :
    (cs ds : List Chan) (p : Proc) → wake_all (cs ++ ds) p ≡ wake_all ds (wake_all cs p)
unfolding wake_all
wake_all-append [] ds p = refl
wake_all-append (c ∷ cs) ds p = wake_all-append cs ds (wake_one c p)

-- The process of slot `i` has just called `sys_sleep` with `n`.
module _ (i n : ℕ) (ps : Table) (p : Proc) (here : get_elem? ps i ≡ some p)
    (fresh : p.sleep_ticks_count ≡ 0) (small : n < sign_bit) where
  abbrev sleeper : Proc
  sleeper = record p {
    sleep_ticks = n;
    chan = Chan.ticks;
    state = ProcState.sleeping;
    context = Resume.in_sched;
  }

  sleeper-elem : get_elem? (sys_sleep i n ps) i ≡ some sleeper
  unfolding sys_sleep go_to_sleep
  sleeper-elem =
      get_elem?-modify_self i _ (modify i _ ps) (record p { sleep_ticks = n })
        (get_elem?-modify_self i _ ps p here)

  -- A process that calls `sys_sleep` with `n`, its count at 0, is still asleep after fewer than
  -- `n` calls of `wakeup`, whatever their channels, and has got one boost from each of them.
  pub sleep_lasts :
      (cs : List Chan)
      → length cs < n
      → (q : Proc) × (get_elem? (wakeups cs (sys_sleep i n ps)) i ≡ some q)
        × StillAsleep sleeper q (length cs)
  sleep_lasts cs h = (
    wake_all cs sleeper,
    wakeups-elem cs (sys_sleep i n ps) i sleeper sleeper-elem,
    wake_all-early cs sleeper refl small (omega arith),
  )

  -- Wakeups on other channels count as ticks: a process that calls `sys_sleep` with `n`, its count
  -- at 0, is runnable after a single clock tick, if `n - 1` or more other wakeups came before.
  pub sleep_ends_early :
      (cs : List Chan)
      → NotOn Chan.ticks cs
      → n ≤ length cs + 1
      → length cs + 1 < sign_bit
      → (q : Proc) × (get_elem? (wakeups (cs ++ Chan.ticks ∷ []) (sys_sleep i n ps)) i ≡ some q)
        × (q.state ≡ ProcState.runnable)
  unfolding wake_all chan_eq
  sleep_ends_early cs other enough few =
      let before = wake_all-elsewhere cs sleeper refl small other (omega arith) in
      let q = wake_all cs sleeper in
      let own : chan_eq q.chan Chan.ticks ≡ true = rw before.chan refl in
      (
        wake_one Chan.ticks q,
        rw wake_all-append at
            (wakeups-elem (cs ++ Chan.ticks ∷ []) (sys_sleep i n ps) i sleeper sleeper-elem),
        wake_one-last q before.asleep (rw before.sleep_ticks small) Chan.ticks own
            (rw before.counted (omega arith))
            (rw (before.counted, before.sleep_ticks) (omega arith)),
      )

-- How `kill` ends.
pub data Killed (pid : ℕ) (ps : Table) : Option Table → Type 0 where
  no_such : NoneOf (λ p. p.pid == pid) ps → Killed pid ps none
  -- the process slept
  woken :
      (i : ℕ) (p : Proc) (qs : Table)
      → First (λ p. p.pid == pid) ps i p
      → p.state ≡ ProcState.sleeping
      → get_elem? qs i ≡ some (record p { killed = true; state = ProcState.runnable })
      → SameBut i ps qs
      → Killed pid ps (some qs)
  -- it did not
  marked :
      (i : ℕ) (p : Proc) (qs : Table)
      → First (λ p. p.pid == pid) ps i p
      → p.state ≢ ProcState.sleeping
      → get_elem? qs i ≡ some (record p { killed = true })
      → SameBut i ps qs
      → Killed pid ps (some qs)

module _ (pid : ℕ) (ps : Table) (i : ℕ) (p : Proc) (f : First (λ p. p.pid == pid) ps i p) where
  kill_one-elem : get_elem? (modify i kill_one ps) i ≡ some (kill_one p)
  kill_one-elem = get_elem?-modify_self i kill_one ps p f.here

  kill_one-Killed : Killed pid ps (some (modify i kill_one ps))
  kill_one-Killed = elim (Bool-cases (is_sleeping p.state)) [
    | inl y ↦
        woken i p (modify i kill_one ps) f (is_sleeping-eq p.state y) (kill_one-elem ∙ rw y refl)
          (λ j. get_elem?-modify_ne i j kill_one ps)
    | inr n ↦
        marked i p (modify i kill_one ps) f (is_sleeping-ne p.state n) (kill_one-elem ∙ rw n refl)
          (λ j. get_elem?-modify_ne i j kill_one ps)
  ]

-- `kill` fails exactly if no slot has the pid. Else it changes the first slot that has it and no
-- other: the process there is marked killed, it is runnable if it slept and in its old state if
-- not, and the rest of it is as before.
pub kill-Killed : (pid : ℕ) (ps : Table) → Killed pid ps (kill pid ps)
unfolding kill
kill-Killed pid ps = elim (Search-slots (λ p. p.pid == pid) ps) [
  | found i p f ↦
      rw (change_first-found (λ p. p.pid == pid) kill_one ps i p f) (kill_one-Killed pid ps i p f)
  | missing h ↦ rw (change_first-missing (λ p. p.pid == pid) kill_one ps h) (no_such h)
]
