-- ===== src/Threads/Lock/Tickets.antt =====
-- P3B: xv6 Kernel threads/ulib.c: the order of the threads after each step of one of them.
use compsci537_introduction.Common.{
  ℕ, zero, suc, ◌+◌, ◌≡◌, ◌≢◌, refl, sym, ap, ◌∙◌, ◌⊎◌, inl, inr, some, List, [], ◌∷◌, ◌++◌, ◌==◌,
  ==_iff, get_elem?, set, length, length-append, length-set, get_elem?-set_self, get_elem?-set_ne,
  get_elem?_lt, arith, Bool-cases,
}
use mathlib.Core.Option.{some-injective}
use compsci537_introduction.Common.Words.{u32}
use compsci537_introduction.Threads.Lock.{Place, outside, spinning, inside, take_ticket, Shared}
use compsci537_introduction.Threads.Lock.Order.{
  weight, active-le, Queued, same_place, active-set, get_elem?-snoc, get_elem?-before,
  get_elem?-end, absent,
}

-- The thread `i` takes a ticket.
module _ (s : Shared) (queue : List ℕ) (q : Queued s queue) (i : ℕ)
    (here : get_elem? s.threads i ≡ some outside) where
  abbrev taken : Shared
  taken = record { lock = (take_ticket s.lock).0; threads = set s.threads i (take_ticket s.lock).1 }

  pub taken-Queued : Queued taken (queue ++ (i ∷ []))
  unfolding take_ticket
  taken-Queued =
      let sum = length-append queue (i ∷ []) in
      let weights = active-set s.threads i outside (spinning s.lock.ticket) here in
      let lt = get_elem?_lt s.threads i outside here in
      let tickets = q.tickets in
      let number = q.number in
      let turn_range = q.turn_range in
      record {
        few =
            let few = q.few in
            let l = length-set s.threads i (spinning s.lock.ticket) in omega arith;
        turn_range = turn_range;
        tickets = omega arith;
        number = omega arith;
        placed = λ k j m. elim (get_elem?-snoc queue i k j m) [
          | inl old ↦
              let same =
                get_elem?-set_ne s.threads i j (spinning s.lock.ticket)
                  (absent s queue q i k j here old) in
              elim (q.placed k j old) [ inl a ↦ inl (same ∙ a) | inr (z, a) ↦ inr (z, same ∙ a) ]
          | inr (at_end, is_i) ↦
              let mine : s.lock.ticket ≡ u32 (s.lock.turn + k) = omega arith in
              inl (
                ap (get_elem? (set s.threads i (spinning s.lock.ticket))) is_i
                ∙ get_elem?-set_self s.threads i (spinning s.lock.ticket) lt
                ∙ ap (λ t. some (spinning t)) mine)
        ];
        found = λ j p h busy. elim (Bool-cases (i == j)) [
          | inl y ↦ (length queue, get_elem?-end queue i ∙ ap some ((==_iff i j).0 y))
          | inr n ↦
              let other : i ≢ j = ground arith in
              let (k, m) = q.found j p (sym (get_elem?-set_ne s.threads i j _ other) ∙ h) busy in
              (k, get_elem?-before queue i k j m)
        ];
      }

-- A thread in the queue reads the turn.
module _ (s : Shared) (queue : List ℕ) (q : Queued s queue) (i turn : ℕ)
    (here : get_elem? s.threads i ≡ some (spinning turn)) where
  -- Its place in the queue.
  waits : (k : ℕ) × (get_elem? queue k ≡ some i) × (turn ≡ u32 (s.lock.turn + k))
  waits =
      let (k, m) = q.found i (spinning turn) here (λ e. cc) in
      elim (q.placed k i m) [
        | inl a ↦
            let one : spinning (u32 (s.lock.turn + k)) ≡ spinning turn =
              some-injective _ _ (sym a ∙ here) in
            (k, m, cc)
        | inr (z, a) ↦
            absurd (let c : spinning turn ≡ inside = some-injective _ _ (sym here ∙ a) in cc)
      ]

  -- Its place is the first one when the turn is its own.
  first_place : s.lock.turn ≡ turn → waits.0 ≡ 0
  first_place e =
      let (k, m, t) = waits in
      let inside_queue = get_elem?_lt queue k i m in
      let room = active-le s.threads in
      let few = q.few in let number = q.number in let turn_range = q.turn_range in omega arith

  -- What the loop makes of it: it goes on, or enters when the turn is its own.
  abbrev Outcome : Place → Type 0
  Outcome place = (place ≡ spinning turn) ⊎ ((place ≡ inside) × (s.lock.turn ≡ turn))

  weight_one : (place : Place) → Outcome place → weight place ≡ 1
  weight_one place (inl e) = ap weight e
  weight_one place (inr (e, now)) = ap weight e

  place_after :
      (place : Place) (turn' k : ℕ)
      → turn' ≡ s.lock.turn
      → get_elem? queue k ≡ some i
      → Outcome place
      → (some place ≡ some (spinning (u32 (turn' + k)))) ⊎ ((k ≡ 0) × (some place ≡ some inside))
  place_after place turn' k same m (inl e) =
      let (l, ml, t) = waits in
      let one = same_place s queue q k l i m ml in
      let mine : turn ≡ u32 (turn' + k) = omega arith in
      inl (ap some e ∙ ap (λ t. some (spinning t)) mine)
  place_after place turn' k same m (inr (e, now)) =
      inr (same_place s queue q k waits.0 i m waits.1 ∙ first_place now, ap some e)

  pub spin-Queued :
      (place : Place) (turn' : ℕ)
      → turn' ≡ s.lock.turn
      → Outcome place
      → Queued
          (record { lock = record s.lock { turn = turn' }; threads = set s.threads i place })
          queue
  spin-Queued place turn' same how =
      let weights = active-set s.threads i (spinning turn) place here in
      let lt = get_elem?_lt s.threads i (spinning turn) here in
      let heavy = weight_one place how in
      let tickets = q.tickets in
      let number = q.number in
      let turn_range = q.turn_range in
      record {
        few = let few = q.few in let l = length-set s.threads i place in omega arith;
        turn_range = omega arith;
        tickets = omega arith;
        number = omega arith;
        placed = λ k j m. elim (Bool-cases (i == j)) [
          | inl y ↦
              let is_i : i ≡ j = (==_iff i j).0 y in
              let at_i : get_elem? (set s.threads i place) j ≡ some place =
                ap (get_elem? (set s.threads i place)) (sym is_i)
                ∙ get_elem?-set_self s.threads i place lt in
              elim (place_after place turn' k same (m ∙ ap some (sym is_i)) how) [
                | inl a ↦ inl (at_i ∙ a)
                | inr (z, a) ↦ inr (z, at_i ∙ a)
              ]
          | inr n ↦
              let still = get_elem?-set_ne s.threads i j place (ground arith) in
              elim (q.placed k j m) [
                | inl a ↦ inl (still ∙ a ∙ ap (λ t. some (spinning (u32 (t + k)))) (sym same))
                | inr (z, a) ↦ inr (z, still ∙ a)
              ]
        ];
        found = λ j p h busy. elim (Bool-cases (i == j)) [
          | inl y ↦ let (k, m, t) = waits in (k, m ∙ ap some ((==_iff i j).0 y))
          | inr n ↦ q.found j p (sym (get_elem?-set_ne s.threads i j place (ground arith)) ∙ h) busy
        ];
      }

-- The thread inside gives the lock back: it is the first one in the queue.
module _ (s : Shared) (j : ℕ) (rest : List ℕ) (q : Queued s (j ∷ rest))
    (here : get_elem? s.threads j ≡ some inside) where
  abbrev released : Shared
  released = record {
    lock = record s.lock { turn = u32 (s.lock.turn + 1) };
    threads = set s.threads j outside;
  }

  -- No other place holds the thread.
  later_other : (k i : ℕ) → get_elem? rest k ≡ some i → j ≢ i
  later_other k i m e =
      let z = same_place s (j ∷ rest) q 0 (suc k) j refl (m ∙ ap some (sym e)) in omega arith

  pub released-Queued : Queued released rest
  released-Queued =
      let weights = active-set s.threads j inside outside here in
      let tickets = q.tickets in
      let number = q.number in
      let turn_range = q.turn_range in
      record {
        few = let few = q.few in let l = length-set s.threads j outside in omega arith;
        turn_range = omega arith;
        tickets = omega arith;
        number = omega arith;
        placed = λ k i m.
            let still = get_elem?-set_ne s.threads j i outside (later_other k i m) in
            elim (q.placed (suc k) i m) [
              | inl a ↦
                  let moved : u32 (s.lock.turn + suc k) ≡ u32 (u32 (s.lock.turn + 1) + k) =
                    omega arith in
                  inl (still ∙ a ∙ ap (λ t. some (spinning t)) moved)
              | inr (z, a) ↦ absurd (omega arith)
            ];
        found = λ i p h busy. elim (Bool-cases (j == i)) [
          | inl y ↦
              let lt = get_elem?_lt s.threads j inside here in
              let gone : get_elem? (set s.threads j outside) i ≡ some outside =
                ap (get_elem? (set s.threads j outside)) (sym ((==_iff j i).0 y))
                ∙ get_elem?-set_self s.threads j outside lt in
              absurd (busy (some-injective _ _ (sym h ∙ gone)))
          | inr n ↦
              let other : j ≢ i = ground arith in
              let (k, m) =
                q.found i p (sym (get_elem?-set_ne s.threads j i outside other) ∙ h) busy in
              later k i m other
        ];
      }
    where
      later :
          (k i : ℕ)
          → get_elem? (j ∷ rest) k ≡ some i
          → j ≢ i
          → (k' : ℕ) × (get_elem? rest k' ≡ some i)
      later zero i m n = absurd (n (some-injective _ _ m))
      later (suc k) i m n = (k, m)
