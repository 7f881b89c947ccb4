-- ===== src/Threads/Lock/Turns.antt =====
-- P3B: xv6 Kernel threads/ulib.c: the threads of the ticket lock in any order of their steps.
use compsci537_introduction.Common.{
  ℕ, zero, suc, ◌+◌, ◌<◌, ◌≡◌, ◌≢◌, refl, sym, ap, ◌∙◌, inl, inr, true, none, some, List, [], ◌∷◌,
  ◌++◌, ◌==◌, ==_iff, if◌then◌else◌, get_elem?, set, replicate, length-replicate,
  get_elem?-set_self, get_elem?-set_ne, get_elem?_lt, arith, Bool-cases, Option-cases,
}
use mathlib.Core.Path.{subst}
use mathlib.Core.Option.{some-injective, none-ne-some}
use compsci537_introduction.Common.Words.{u32}
use compsci537_introduction.Threads.Lock.{
  lock_init, Place, outside, spinning, inside, fetch_and_add, take_ticket, spin, lock_release,
  Shared, act, step, run, new_lock,
}
use compsci537_introduction.Threads.Lock.Order.{active, Queued, same_place}
use compsci537_introduction.Threads.Lock.Tickets.{taken-Queued, spin-Queued, released-Queued}

step_at :
    (s : Shared) (i : ℕ) (place : Place)
    → get_elem? s.threads i ≡ some place
    → step i s
      ≡ record { lock = (act place s.lock).0; threads = set s.threads i (act place s.lock).1 }
unfolding step
step_at s i place h = rw (h, step) refl

step_missing : (s : Shared) (i : ℕ) → get_elem? s.threads i ≡ none → step i s ≡ s
unfolding step
step_missing s i h = rw (h, step) refl

-- A thread that reads the turn, by whether it is its own.
spins :
    (s : Shared) (i turn : ℕ) (place : Place)
    → get_elem? s.threads i ≡ some (spinning turn)
    → (if s.lock.turn == turn then inside else spinning turn) ≡ place
    → step i s ≡ record {
      lock = record s.lock { turn = u32 (s.lock.turn + 0) };
      threads = set s.threads i place;
    }
unfolding spin fetch_and_add
spins s i turn place h e =
    step_at s i (spinning turn) h
    ∙ ap
        (λ p. record {
          lock = record s.lock { turn = u32 (s.lock.turn + 0) };
          threads = set s.threads i p;
        })
        e

releases :
    (s : Shared) (i : ℕ)
    → get_elem? s.threads i ≡ some inside
    → step i s ≡ record {
      lock = record s.lock { turn = u32 (s.lock.turn + 1) };
      threads = set s.threads i outside;
    }
unfolding lock_release fetch_and_add
releases s i h = step_at s i inside h

abbrev SomeQueue : Shared → Type 0
SomeQueue s = (queue : List ℕ) × Queued s queue

-- The thread inside is the first one.
front :
    (s : Shared) (queue : List ℕ) (i : ℕ)
    → Queued s queue
    → get_elem? s.threads i ≡ some inside
    → get_elem? queue 0 ≡ some i
front s queue i q h =
    let (k, m) = q.found i inside h (λ e. cc) in
    elim (q.placed k i m) [
      | inl a ↦
          absurd (
            let c : inside ≡ spinning (u32 (s.lock.turn + k)) = some-injective _ _ (sym h ∙ a) in
            cc)
      | inr (z, a) ↦ ap (get_elem? queue) (sym z) ∙ m
    ]

inside_step :
    (s : Shared) (queue : List ℕ) (i : ℕ)
    → Queued s queue
    → get_elem? s.threads i ≡ some inside
    → SomeQueue (step i s)
inside_step s [] i q h = absurd (none-ne-some _ (front s [] i q h))
inside_step s (j ∷ rest) i q h =
    let one : j ≡ i = some-injective _ _ (front s (j ∷ rest) i q h) in
    let at_j : get_elem? s.threads j ≡ some inside = ap (get_elem? s.threads) one ∙ h in
    subst SomeQueue (sym (ap (λ t. step t s) (sym one) ∙ releases s j at_j))
      (rest, released-Queued s j rest q at_j)

turn_stays : (s : Shared) (queue : List ℕ) → Queued s queue → u32 (s.lock.turn + 0) ≡ s.lock.turn
turn_stays s queue q = let t = q.turn_range in omega arith

step-Queued : (s : Shared) (queue : List ℕ) (i : ℕ) → Queued s queue → SomeQueue (step i s)
unfolding take_ticket
step-Queued s queue i q = elim (Option-cases (get_elem? s.threads i)) [
  | inl n ↦ subst SomeQueue (sym (step_missing s i n)) (queue, q)
  | inr (outside, h) ↦
      subst SomeQueue (sym (step_at s i outside h)) (queue ++ (i ∷ []), taken-Queued s queue q i h)
  | inr (inside, h) ↦ inside_step s queue i q h
  | inr (spinning turn, h) ↦
      let same = turn_stays s queue q in
      elim (Bool-cases (s.lock.turn == turn)) [
        | inl y ↦ subst SomeQueue (sym (spins s i turn inside h (rw y refl))) (
          queue,
          spin-Queued s queue q i turn h inside _ same (inr (refl, (==_iff s.lock.turn turn).0 y)),
        )
        | inr n ↦
            subst SomeQueue (sym (spins s i turn (spinning turn) h (rw n refl)))
              (queue, spin-Queued s queue q i turn h (spinning turn) _ same (inl refl))
      ]
]

run-Queued : (order : List ℕ) (s : Shared) → SomeQueue s → SomeQueue (run order s)
unfolding run
run-Queued [] s q = q
run-Queued (i ∷ order) s q = run-Queued order (step i s) (step-Queued s q.0 i q.1)

outside_only : (n i : ℕ) (p : Place) → get_elem? (replicate n outside) i ≡ some p → p ≡ outside
outside_only zero i p h = absurd (none-ne-some _ h)
outside_only (suc n) zero p h = sym (some-injective _ _ h)
outside_only (suc n) (suc i) p h = outside_only n i p h

none_active : (n : ℕ) → active (replicate n outside) ≡ 0
none_active zero = refl
none_active (suc n) = omega (arith, none_active n)

new_lock-Queued : (n : ℕ) → n < 4294967296 → SomeQueue (new_lock n)
unfolding lock_init
new_lock-Queued n lt =
    let size = length-replicate n outside in
    let idle = none_active n in
    (
      [],
      record {
        few = omega arith;
        turn_range = omega arith;
        tickets = omega arith;
        number = sym idle;
        placed = λ k i m. absurd (none-ne-some _ m);
        found = λ i p h busy. absurd (busy (outside_only n i p h));
      },
    )

-- Whatever the order in which fewer than 2^32 threads do their steps, two threads that are behind
-- `lock_acquire` and before `lock_release` are the same thread, although tickets wrap around.
pub lock_excludes :
    (n : ℕ) (order : List ℕ) (i j : ℕ)
    → n < 4294967296
    → get_elem? (run order (new_lock n)).threads i ≡ some inside
    → get_elem? (run order (new_lock n)).threads j ≡ some inside
    → i ≡ j
lock_excludes n order i j lt hi hj =
    let (queue, q) = run-Queued order (new_lock n) (new_lock-Queued n lt) in
    some-injective _ _ (sym (front _ queue i q hi) ∙ front _ queue j q hj)

-- A thread with `k` others before it in the queue gets the lock when these do their steps.
abbrev CanEnter : Shared → ℕ → Type 0
CanEnter s i = (order : List ℕ) × (get_elem? (run order s).threads i ≡ some inside)

by_step : (s : Shared) (j i : ℕ) → CanEnter (step j s) i → CanEnter s i
unfolding run
by_step s j i (order, h) = (j ∷ order, h)

-- The first thread in the queue, while it waits.
module _ (s : Shared) (j : ℕ) (rest : List ℕ) (q : Queued s (j ∷ rest)) (turn : ℕ)
    (here : get_elem? s.threads j ≡ some (spinning turn)) where
  abbrev entered : Shared
  entered = record {
    lock = record s.lock { turn = u32 (s.lock.turn + 0) };
    threads = set s.threads j inside;
  }

  own_turn : s.lock.turn ≡ turn
  own_turn = elim (q.placed 0 j refl) [
    | inl a ↦
        let c : spinning (u32 (s.lock.turn + 0)) ≡ spinning turn =
          some-injective _ _ (sym a ∙ here) in
        let d : u32 (s.lock.turn + 0) ≡ turn = cc in sym (turn_stays s (j ∷ rest) q) ∙ d
    | inr (z, a) ↦ absurd (let c : spinning turn ≡ inside = some-injective _ _ (sym here ∙ a) in cc)
  ]

  enters : step j s ≡ entered
  enters =
      let yes : (s.lock.turn == turn) ≡ true = (==_iff s.lock.turn turn).1 own_turn in
      spins s j turn inside here (rw yes refl)

  entered-Queued : Queued entered (j ∷ rest)
  entered-Queued =
      spin-Queued s (j ∷ rest) q j turn here inside _ (turn_stays s (j ∷ rest) q)
        (inr (refl, own_turn))

  entered_inside : get_elem? entered.threads j ≡ some inside
  entered_inside =
      get_elem?-set_self s.threads j inside (get_elem?_lt s.threads j (spinning turn) here)

-- The first thread is inside: once it is out, the others have one less before them.
by_release :
    (s : Shared) (j : ℕ) (rest : List ℕ) (i turn : ℕ)
    → Queued s (j ∷ rest)
    → get_elem? s.threads j ≡ some inside
    → j ≢ i
    → get_elem? s.threads i ≡ some (spinning turn)
    → ((s' : Shared)
        → Queued s' rest
        → get_elem? s'.threads i ≡ some (spinning turn)
        → CanEnter s' i)
    → CanEnter s i
by_release s j rest i turn q first other h later = by_step s j i (
    subst (λ u. CanEnter u i) (sym (releases s j first))
      (later _ (released-Queued s j rest q first)
        (get_elem?-set_ne s.threads j i outside other ∙ h)))

by_queue :
    (k : ℕ) (s : Shared) (queue : List ℕ) (i turn : ℕ)
    → Queued s queue
    → get_elem? queue k ≡ some i
    → get_elem? s.threads i ≡ some (spinning turn)
    → CanEnter s i
unfolding run
by_queue k s [] i turn q m h = absurd (none-ne-some _ m)
by_queue zero s (j ∷ rest) i turn q m h =
    let one : j ≡ i = some-injective _ _ m in
    let at_j : get_elem? s.threads j ≡ some (spinning turn) = ap (get_elem? s.threads) one ∙ h in
    subst (CanEnter s) one (
      by_step s j j (
        subst (λ u. CanEnter u j) (sym (enters s j rest q turn at_j))
          ([], entered_inside s j rest q turn at_j)))
by_queue (suc k) s (j ∷ rest) i turn q m h =
    let other : j ≢ i =
      λ e. let z = same_place s (j ∷ rest) q 0 (suc k) i (ap some e) m in omega arith in
    elim (q.placed 0 j refl) [
      | inr (z, first) ↦
          by_release s j rest i turn q first other h (λ s' q' h'. by_queue k s' rest i turn q' m h')
      | inl waiting ↦
          let t = u32 (s.lock.turn + 0) in
          by_step s j i (
            subst (λ u. CanEnter u i) (sym (enters s j rest q t waiting))
              (by_release (entered s j rest q t waiting) j rest i turn
                (entered-Queued s j rest q t waiting) (entered_inside s j rest q t waiting) other
                (get_elem?-set_ne s.threads j i inside other ∙ h)
                (λ s' q' h'. by_queue k s' rest i turn q' m h')))
    ]

-- Whatever fewer than 2^32 threads have done before, a thread in the loop of `lock_acquire` can still
-- get the lock: there is an order of further steps after which it is behind `lock_acquire`.
pub lock_acquires :
    (n : ℕ) (order : List ℕ) (i turn : ℕ)
    → n < 4294967296
    → get_elem? (run order (new_lock n)).threads i ≡ some (spinning turn)
    → (more : List ℕ) × (get_elem? (run more (run order (new_lock n))).threads i ≡ some inside)
lock_acquires n order i turn lt h =
    let (queue, q) = run-Queued order (new_lock n) (new_lock-Queued n lt) in
    let (k, m) = q.found i (spinning turn) h (λ e. cc) in
    by_queue k (run order (new_lock n)) queue i turn q m h
