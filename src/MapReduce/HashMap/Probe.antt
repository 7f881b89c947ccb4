-- ===== src/MapReduce/HashMap/Probe.antt =====
-- P3A: MapReduce/hashmap.c: where the probing loop ends.
use compsci537_introduction.Common.{
  ℕ, zero, suc, ◌+◌, ◌-◌, ◌<◌, ◌≡◌, refl, ◌≢◌, true, false, Bool, Option, none, some, [], ◌∷◌,
  arith, inl, inr, Bool-cases, leb, if◌then◌else◌, get_or, set, length,
}
use compsci537_introduction.MapReduce.HashMap.{MapPair, Contents, next_slot, probe}

-- The pair in a slot; none beyond the array.
abbrev pub slot : Contents → ℕ → Option MapPair
slot t i = get_or t i none

pub slot-set_self :
    (t : Contents) (i : ℕ) (o : Option MapPair) → i < length t → slot (set t i o) i ≡ o
slot-set_self [] i o h = absurd (omega arith)
slot-set_self (x ∷ t) zero o h = refl
slot-set_self (x ∷ t) (suc i) o h = slot-set_self t i o (omega arith)

pub slot-set_ne :
    (t : Contents) (i j : ℕ) (o : Option MapPair) → i ≢ j → slot (set t i o) j ≡ slot t j
slot-set_ne [] i j o h = refl
slot-set_ne (x ∷ t) zero zero o h = absurd (h refl)
slot-set_ne (x ∷ t) zero (suc j) o h = refl
slot-set_ne (x ∷ t) (suc i) zero o h = refl
slot-set_ne (x ∷ t) (suc i) (suc j) o h = slot-set_ne t i j o (λ e. h (ground arith))

pub slot_lt : (t : Contents) (i : ℕ) (e : MapPair) → slot t i ≡ some e → i < length t
slot_lt [] i e h = cc
slot_lt (x ∷ t) zero e h = omega arith
slot_lt (x ∷ t) (suc i) e h = omega (arith, slot_lt t i e h)

module _ (ends : Option MapPair → Bool) (capacity : ℕ) where
  -- Where the loop ends, its test holds.
  pub probe-ends :
      (fuel : ℕ) (t : Contents) (h j : ℕ)
      → probe ends fuel capacity t h ≡ some j
      → h < capacity
      → (ends (slot t j) ≡ true) × (j < capacity)
  unfolding probe
  probe-ends zero t h j e b = cc
  probe-ends (suc fuel) t h j e b = elim (Bool-cases (ends (slot t h))) [
    | inl y ↦ let f = rw y at e in let one : h ≡ j = cc in rw (← one) (y, b)
    | inr n ↦ probe-ends fuel t (next_slot capacity h) j (rw n at e) (ground arith)
  ]

  -- Rounds from slot `h` to slot `v`, going round at the end of the array.
  abbrev distance : ℕ → ℕ → ℕ
  distance h v = if leb h v then v - h else capacity - h + v

  -- With a slot that ends the loop fewer rounds ahead than the fuel, the loop ends.
  probe_within :
      (fuel : ℕ) (t : Contents) (h v : ℕ)
      → h < capacity
      → v < capacity
      → ends (slot t v) ≡ true
      → distance h v < fuel
      → (j : ℕ) × (probe ends fuel capacity t h ≡ some j)
  unfolding probe
  probe_within zero t h v b c y d = absurd (omega arith)
  probe_within (suc fuel) t h v b c y d = elim (Bool-cases (ends (slot t h))) [
    | inl s ↦ (h, rw s)
    | inr n ↦
        let other : h ≢ v = λ e. absurd (ground arith) in
        let (j, f) =
          probe_within fuel t (next_slot capacity h) v (ground arith) c y (ground arith) in
        (j, rw n f)
  ]

  pub probe_total :
      (t : Contents) (h v : ℕ)
      → h < capacity
      → v < capacity
      → ends (slot t v) ≡ true
      → (j : ℕ) × (probe ends capacity capacity t h ≡ some j)
  probe_total t h v b c y = probe_within capacity t h v b c y (ground arith)

-- A table and a test that end the loop no earlier, and still at the same slot, give that slot.
pub probe_mono :
    (ends ends' : Option MapPair → Bool) (capacity fuel : ℕ) (t t' : Contents) (h j : ℕ)
    → ((i : ℕ) → ends (slot t i) ≡ false → ends' (slot t' i) ≡ false)
    → ends' (slot t' j) ≡ true
    → probe ends fuel capacity t h ≡ some j
    → probe ends' fuel capacity t' h ≡ some j
unfolding probe
probe_mono ends ends' capacity zero t t' h j no_earlier there e = cc
probe_mono ends ends' capacity (suc fuel) t t' h j no_earlier there e =
    elim (Bool-cases (ends (slot t h))) [
      | inl y ↦ let f = rw y at e in let one : h ≡ j = cc in rw (one, there)
      | inr n ↦ rw (no_earlier h n) (
          probe_mono ends ends' capacity fuel t t' (next_slot capacity h) j no_earlier there
            (rw n at e))
    ]
