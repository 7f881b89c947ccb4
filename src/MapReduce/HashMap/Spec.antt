-- ===== src/MapReduce/HashMap/Spec.antt =====
-- P3A: MapReduce/hashmap.c: the finite map that an array of pairs stands for, and the arrays in
-- which probing finds every pair.
use compsci537_introduction.Common.{
  ℕ, zero, suc, ◌+◌, ◌≤◌, ◌<◌, ◌≡◌, refl, sym, ◌≢◌, Option, none, some, [], ◌∷◌, List, arith, inl,
  inr, Bool-cases, if◌then◌else◌, set, length, replicate,
}
use compsci537_introduction.MapReduce.Key.{Key, key_eq, key_eq→≡, key_eq_refl, key_eq_iff}
use compsci537_introduction.MapReduce.HashMap.{MapPair, Contents}
use compsci537_introduction.MapReduce.HashMap.Probe.{slot}

-- The value of a key: that of the first pair with the key, wherever it stands.
unfoldable pub entry_of : Key → Contents → Option (List ℕ)
entry_of k [] = none
entry_of k (none ∷ t) = entry_of k t
entry_of k (some e ∷ t) = if key_eq k e.key then some e.value else entry_of k t

-- The slots that hold a pair.
unfoldable pub occupied : Contents → ℕ
occupied [] = 0
occupied (none ∷ t) = occupied t
occupied (some e ∷ t) = suc (occupied t)

pub occupied-le : (t : Contents) → occupied t ≤ length t
unfolding occupied
occupied-le [] = omega arith
occupied-le (none ∷ t) = omega (arith, occupied-le t)
occupied-le (some e ∷ t) = omega (arith, occupied-le t)

-- A table that is not full has a vacant slot.
pub vacancy : (t : Contents) → occupied t < length t → (v : ℕ) × (v < length t) × (slot t v ≡ none)
unfolding occupied
vacancy [] h = absurd (omega arith)
vacancy (none ∷ t) h = (0, omega arith, refl)
vacancy (some e ∷ t) h = let (v, b, f) = vacancy t (omega arith) in (suc v, omega arith, f)

pub occupied-set_vacant :
    (t : Contents) (v : ℕ) (e : MapPair)
    → v < length t
    → slot t v ≡ none
    → occupied (set t v (some e)) ≡ occupied t + 1
unfolding occupied
occupied-set_vacant [] v e b f = absurd (omega arith)
occupied-set_vacant (none ∷ t) zero e b f = omega arith
occupied-set_vacant (some x ∷ t) zero e b f = absurd (ground arith)
occupied-set_vacant (none ∷ t) (suc v) e b f = occupied-set_vacant t v e (omega arith) f
occupied-set_vacant (some x ∷ t) (suc v) e b f =
    omega (arith, occupied-set_vacant t v e (omega arith) f)

pub occupied-set_pair :
    (t : Contents) (v : ℕ) (x e : MapPair)
    → slot t v ≡ some x
    → occupied (set t v (some e)) ≡ occupied t
unfolding occupied
occupied-set_pair [] v x e f = cc
occupied-set_pair (none ∷ t) zero x e f = cc
occupied-set_pair (some y ∷ t) zero x e f = refl
occupied-set_pair (none ∷ t) (suc v) x e f = occupied-set_pair t v x e f
occupied-set_pair (some y ∷ t) (suc v) x e f = omega (arith, occupied-set_pair t v x e f)

pub entry_of-replicate : (k : Key) (n : ℕ) → entry_of k (replicate n none) ≡ none
unfolding entry_of
entry_of-replicate k zero = refl
entry_of-replicate k (suc n) = entry_of-replicate k n

pub occupied-replicate : (n : ℕ) → occupied (replicate n none) ≡ 0
unfolding occupied
occupied-replicate zero = refl
occupied-replicate (suc n) = occupied-replicate n

pub slot-replicate : (n i : ℕ) → slot (replicate n none) i ≡ none
slot-replicate zero i = refl
slot-replicate (suc n) zero = refl
slot-replicate (suc n) (suc i) = slot-replicate n i

-- No pair but that of slot `v` has the key.
abbrev pub OnlyAt : Key → ℕ → Contents → Type 0
OnlyAt k v t = (j : ℕ) (x : MapPair) → slot t j ≡ some x → x.key ≡ k → j ≡ v

pub entry_of-missing :
    (k : Key) (t : Contents)
    → ((j : ℕ) (x : MapPair) → slot t j ≡ some x → x.key ≢ k)
    → entry_of k t ≡ none
unfolding entry_of
entry_of-missing k [] h = refl
entry_of-missing k (none ∷ t) h = entry_of-missing k t (λ j. h (suc j))
entry_of-missing k (some e ∷ t) h =
    let ne = h 0 e refl in ground (arith, key_eq_iff k e.key, entry_of-missing k t (λ j. h (suc j)))

pub entry_of-slot :
    (t : Contents) (v : ℕ) (e : MapPair)
    → slot t v ≡ some e
    → OnlyAt e.key v t
    → entry_of e.key t ≡ some e.value
unfolding entry_of
entry_of-slot [] v e f only = cc
entry_of-slot (none ∷ t) zero e f only = cc
entry_of-slot (none ∷ t) (suc v) e f only =
    entry_of-slot t v e f (λ j x g s. let o = only (suc j) x g s in omega arith)
entry_of-slot (some y ∷ t) zero e f only = ground (arith, key_eq_refl e.key)
entry_of-slot (some y ∷ t) (suc v) e f only = elim (Bool-cases (key_eq e.key y.key)) [
  | inl same ↦ let o = only 0 y refl (sym (key_eq→≡ e.key y.key same)) in absurd (omega arith)
  | inr other ↦
      rw other (entry_of-slot t v e f (λ j x g s. let o = only (suc j) x g s in omega arith))
]

-- A write of a pair with a key that stands nowhere else is an update of the map.
pub entry_of-set :
    (k : Key) (t : Contents) (v : ℕ) (e : MapPair)
    → v < length t
    → OnlyAt e.key v t
    → ((x : MapPair) → slot t v ≡ some x → x.key ≡ e.key)
    → entry_of k (set t v (some e)) ≡ (if key_eq k e.key then some e.value else entry_of k t)
unfolding entry_of
entry_of-set k [] v e b only own = absurd (omega arith)
entry_of-set k (none ∷ t) zero e b only own = refl
entry_of-set k (some y ∷ t) zero e b only own = rw (own y refl) (ground arith)
entry_of-set k (none ∷ t) (suc v) e b only own =
    entry_of-set k t v e (omega arith) (λ j x g s. let o = only (suc j) x g s in omega arith) own
entry_of-set k (some y ∷ t) (suc v) e b only own =
    let rest =
      entry_of-set k t v e (omega arith) (λ j x g s. let o = only (suc j) x g s in omega arith)
        own in
    let ne : y.key ≢ e.key = λ s. let o = only 0 y refl s in absurd (omega arith) in
    ground (arith, key_eq_iff k y.key, key_eq_iff k e.key, rest)
