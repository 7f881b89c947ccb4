-- ===== src/Threads/Lock/Order.antt =====
-- P3B: xv6 Kernel threads/ulib.c: the order in which the threads get the lock.
use compsci537_introduction.Common.{
  ℕ, zero, suc, ◌+◌, ◌≤◌, ◌<◌, ◌≡◌, ◌≢◌, refl, sym, ap, ◌∙◌, ◌⊎◌, inl, inr, some, List, [], ◌∷◌,
  ◌++◌, get_elem?, set, length, get_elem?_lt, arith,
}
use mathlib.Core.Option.{some-injective, none-ne-some}
use compsci537_introduction.Common.Words.{u32}
use compsci537_introduction.Threads.Lock.{Place, outside, spinning, inside, Shared}

abbrev pub weight : Place → ℕ
weight outside = 0
weight (spinning turn) = 1
weight inside = 1

-- The threads that wait or are inside.
abbrev pub active : List Place → ℕ
active [] = 0
active (p ∷ ps) = weight p + active ps

pub active-le : (ps : List Place) → active ps ≤ length ps
active-le [] = omega arith
active-le (outside ∷ ps) = omega (arith, active-le ps)
active-le (spinning t ∷ ps) = omega (arith, active-le ps)
active-le (inside ∷ ps) = omega (arith, active-le ps)

pub active-set :
    (ps : List Place) (i : ℕ) (p q : Place)
    → get_elem? ps i ≡ some p
    → active (set ps i q) + weight p ≡ active ps + weight q
active-set [] i p q h = absurd (none-ne-some _ h)
active-set (r ∷ ps) zero p q h =
    let e : weight r ≡ weight p = ap weight (some-injective _ _ h) in omega arith
active-set (r ∷ ps) (suc i) p q h = omega (arith, active-set ps i p q h)

-- The threads in the queue, in the order of their tickets.
pub record Queued (s : Shared) (queue : List ℕ) : Type 0 where
  pub few : length s.threads < 4294967296
  pub turn_range : s.lock.turn < 4294967296
  pub tickets : s.lock.ticket ≡ u32 (s.lock.turn + length queue)
  pub number : length queue ≡ active s.threads
  pub placed :
      (k i : ℕ)
      → get_elem? queue k ≡ some i
      → (get_elem? s.threads i ≡ some (spinning (u32 (s.lock.turn + k))))
        ⊎ ((k ≡ 0) × (get_elem? s.threads i ≡ some inside))
  pub found :
      (i : ℕ) (p : Place)
      → get_elem? s.threads i ≡ some p
      → p ≢ outside
      → (k : ℕ) × (get_elem? queue k ≡ some i)

-- Members of a queue with one thread more at its end.
pub get_elem?-snoc :
    (q : List ℕ) (x k i : ℕ)
    → get_elem? (q ++ (x ∷ [])) k ≡ some i
    → (get_elem? q k ≡ some i) ⊎ ((k ≡ length q) × (i ≡ x))
get_elem?-snoc [] x zero i h = inr (refl, sym (some-injective _ _ h))
get_elem?-snoc [] x (suc k) i h = absurd (none-ne-some _ h)
get_elem?-snoc (y ∷ q) x zero i h = inl h
get_elem?-snoc (y ∷ q) x (suc k) i h = elim (get_elem?-snoc q x k i h) [
  | inl a ↦ inl a
  | inr (a, b) ↦ inr (ap suc a, b)
]

pub get_elem?-before :
    (q : List ℕ) (x k i : ℕ) → get_elem? q k ≡ some i → get_elem? (q ++ (x ∷ [])) k ≡ some i
get_elem?-before [] x k i h = absurd (none-ne-some _ h)
get_elem?-before (y ∷ q) x zero i h = h
get_elem?-before (y ∷ q) x (suc k) i h = get_elem?-before q x k i h

pub get_elem?-end : (q : List ℕ) (x : ℕ) → get_elem? (q ++ (x ∷ [])) (length q) ≡ some x
get_elem?-end [] x = refl
get_elem?-end (y ∷ q) x = get_elem?-end q x

-- A thread that is outside is not in the queue.
pub absent :
    (s : Shared) (queue : List ℕ) (q : Queued s queue) (i k j : ℕ)
    → get_elem? s.threads i ≡ some outside
    → get_elem? queue k ≡ some j
    → i ≢ j
absent s queue q i k j h m e = elim (q.placed k j m) [
  | inl w ↦ let t = ap (get_elem? s.threads) e in cc
  | inr (z, w) ↦ let t = ap (get_elem? s.threads) e in cc
]

-- Where two places in the queue hold the same thread they are one place.
pub same_place :
    (s : Shared) (queue : List ℕ) (q : Queued s queue) (k l i : ℕ)
    → get_elem? queue k ≡ some i
    → get_elem? queue l ≡ some i
    → k ≡ l
same_place s queue q k l i hk hl =
    let room = active-le s.threads in
    let few = q.few in
    let number = q.number in
    let turn_range = q.turn_range in
    let lk = get_elem?_lt queue k i hk in
    let ll = get_elem?_lt queue l i hl in
    elim (q.placed k i hk) [
      | inl a ↦ elim (q.placed l i hl) [
        | inl b ↦ let e : u32 (s.lock.turn + k) ≡ u32 (s.lock.turn + l) = cc in omega arith
        | inr (z, b) ↦ absurd (
            let c : spinning (u32 (s.lock.turn + k)) ≡ inside = some-injective _ _ (sym a ∙ b) in
            cc)
      ]
      | inr (y, a) ↦ elim (q.placed l i hl) [
        | inl b ↦ absurd (
            let c : spinning (u32 (s.lock.turn + l)) ≡ inside = some-injective _ _ (sym b ∙ a) in
            cc)
        | inr (z, b) ↦ y ∙ sym z
      ]
    ]
