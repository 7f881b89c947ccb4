-- ===== src/Threads/Lock.antt =====
-- P3B: xv6 Kernel threads/ulib.c: the ticket lock, as threads that take turns at its atomic reads and
-- writes.
pub mod Order
pub mod Tickets
pub mod Turns
use compsci537_introduction.Common.{
  ℕ, zero, suc, ◌+◌, Bool, true, false, Option, none, some, List, [], ◌∷◌, ◌==◌, if◌then◌else◌,
  get_elem?, set, replicate,
}
use compsci537_introduction.Common.Words.{u32}

-- `fetch_and_add`: what it returns, and the variable.
unfoldable pub fetch_and_add : ℕ → ℕ → ℕ × ℕ
fetch_and_add var val = (var, u32 (var + val))

-- lock_t
pub record Lock : Type 0 where
  pub ticket : ℕ
  pub turn : ℕ

unfoldable pub lock_init : Lock
lock_init = record { ticket = 0; turn = 0 }

-- A thread outside of the lock, in the loop of `lock_acquire` with its `turn`, and behind it.
pub data Place : Type 0 where
  outside : Place
  spinning : ℕ → Place
  inside : Place

-- The first statement of `lock_acquire`,
unfoldable pub take_ticket : Lock → Lock × Place
unfolding fetch_and_add
take_ticket lock =
    let (turn, ticket) = fetch_and_add lock.ticket 1 in
    (record lock { ticket = ticket }, spinning turn)

-- the test of its loop,
unfoldable pub spin : ℕ → Lock → Lock × Place
unfolding fetch_and_add
spin turn lock =
    let (now, same) = fetch_and_add lock.turn 0 in
    (record lock { turn = same }, if now == turn then inside else spinning turn)

-- and `lock_release`.
unfoldable pub lock_release : Lock → Lock × Place
unfolding fetch_and_add
lock_release lock = (record lock { turn = (fetch_and_add lock.turn 1).1 }, outside)

-- The lock and the threads that use it.
pub record Shared : Type 0 where
  pub lock : Lock
  pub threads : List Place

-- What a thread does next.
abbrev pub act : Place → Lock → Lock × Place
act outside lock = take_ticket lock
act (spinning turn) lock = spin turn lock
act inside lock = lock_release lock

-- The thread `i` does its next step.
unfoldable pub step : ℕ → Shared → Shared
step i s = elim (get_elem? s.threads i) [
  | none ↦ s
  | some place ↦ record {
    lock = (act place s.lock).0;
    threads = set s.threads i (act place s.lock).1;
  }
]

-- Steps of any threads in any order.
unfoldable pub run : List ℕ → Shared → Shared
run [] s = s
run (i ∷ order) s = run order (step i s)

-- `n` threads and a new lock.
abbrev pub new_lock : ℕ → Shared
new_lock n = record { lock = lock_init; threads = replicate n outside }
