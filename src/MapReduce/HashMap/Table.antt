-- ===== src/MapReduce/HashMap/Table.antt =====
-- P3A: MapReduce/hashmap.c: arrays in which the search for a key finds its pair, and writes that keep this.
use compsci537_introduction.Common.{
  ℕ, ◌<◌, ◌≡◌, refl, sym, ◌∙◌, ◌≢◌, true, false, some, arith, inl, inr, Bool-cases, Option-cases,
  ◌==◌, if◌then◌else◌, set, length, length-set,
}
use compsci537_introduction.MapReduce.Key.{Key, key_eq, key_eq→≡, key_eq_refl}
use compsci537_introduction.MapReduce.HashMap.{MapPair, Contents, ends_for, hash, find, value_of}
use compsci537_introduction.MapReduce.HashMap.Probe.{
  slot, slot-set_self, slot-set_ne, probe-ends, probe_total, probe_mono,
}
use compsci537_introduction.MapReduce.HashMap.Spec.{
  entry_of, occupied, vacancy, OnlyAt, entry_of-missing, entry_of-slot, entry_of-set,
}

-- An array with room in which the probing loop finds every pair.
pub record IsTable (capacity : ℕ) (t : Contents) : Type 0 where
  pub sized : length t ≡ capacity
  pub room : occupied t < capacity
  pub reach : (j : ℕ) (e : MapPair) → slot t j ≡ some e → find e.key capacity t ≡ some j

hash_lt : (k : Key) (capacity : ℕ) → 0 < capacity → hash k capacity < capacity
unfolding hash
hash_lt k capacity h = omega arith

module _ (capacity : ℕ) (t : Contents) (v : IsTable capacity t) where
  pub positive : 0 < capacity
  positive = let r = v.room in omega arith

  pub one_key :
      (i j : ℕ) (x y : MapPair) → slot t i ≡ some x → slot t j ≡ some y → x.key ≡ y.key → i ≡ j
  one_key i j x y e f s = let a = v.reach i x e in let b = v.reach j y f in let a' = rw s at a in cc

  pub find_total : (k : Key) → (j : ℕ) × (find k capacity t ≡ some j)
  unfolding find
  find_total k =
      let (w, b, f) = vacancy t (let r = v.room in let s = v.sized in omega arith) in
      probe_total (ends_for k) capacity t (hash k capacity) w (hash_lt k capacity positive)
        (let s = v.sized in omega arith) (rw f refl)

  pub find-ends :
      (k : Key) (j : ℕ)
      → find k capacity t ≡ some j
      → (ends_for k (slot t j) ≡ true) × (j < length t)
  unfolding find
  find-ends k j e =
      let (y, b) =
        probe-ends (ends_for k) capacity capacity t (hash k capacity) j e
          (hash_lt k capacity positive) in
      (y, let s = v.sized in omega arith)

  -- Where the search for a key ends, its pair stands if there is one.
  pub find-only : (k : Key) (j : ℕ) → find k capacity t ≡ some j → OnlyAt k j t
  find-only k j e i x f s = let r = v.reach i x f in let r' = rw s at r in cc

  pub find-value :
      (k : Key) (j : ℕ) → find k capacity t ≡ some j → value_of (slot t j) ≡ entry_of k t
  find-value k j e = elim (Option-cases (slot t j)) [
    | inl n ↦ rw n (
        sym (
          entry_of-missing k t
            λ i x f s. let o = find-only k j e i x f s in let f' = rw o at f in cc))
    | inr (x, f) ↦
        let y = find-ends k j e in
        let hit : key_eq k x.key ≡ true = rw f at y.0 in
        let same : k ≡ x.key = key_eq→≡ k x.key hit in
        rw f (rw same (sym (entry_of-slot t j x f (rw same at (find-only k j e)))))
  ]

  -- The pair with its key written where the search ends.
  module _ (e : MapPair) (j : ℕ) (found : find e.key capacity t ≡ some j) where
    pub own_key : (x : MapPair) → slot t j ≡ some x → x.key ≡ e.key
    own_key x f = let y = find-ends e.key j found in sym (key_eq→≡ e.key x.key (rw f at y.0))

    abbrev pub written : Contents
    written = set t j (some e)

    pub entry_of-written :
        (k : Key) → entry_of k written ≡ (if key_eq k e.key then some e.value else entry_of k t)
    entry_of-written k =
        entry_of-set k t j e (find-ends e.key j found).1 (find-only e.key j found) own_key

    pub slot-written : slot written j ≡ some e
    slot-written = slot-set_self t j (some e) (find-ends e.key j found).1

    -- A search that passes a slot passes it after the write too.
    passes-written :
        (k : Key) (i : ℕ) → ends_for k (slot t i) ≡ false → ends_for k (slot written i) ≡ false
    passes-written k i h = elim (Bool-cases (j == i)) [
      | inr n ↦ let two : j ≢ i = ground arith in rw (slot-set_ne t j i (some e) two) h
      | inl y ↦
          let one : j ≡ i = ground arith in
          let h' = rw (← one) at h in
          rw (← one) (elim (Option-cases (slot t j)) [
            | inl n ↦ let bad = rw n at h' in cc
            | inr (x, f) ↦ let pass = rw f at h' in rw slot-written (rw (← own_key x f) pass)
          ])
    ]

    find-written :
        (k : Key) (i : ℕ)
        → ends_for k (slot written i) ≡ true
        → find k capacity t ≡ some i
        → find k capacity written ≡ some i
    unfolding find
    find-written k i there h =
        probe_mono (ends_for k) (ends_for k) capacity capacity t written (hash k capacity) i
          (passes-written k) there h

    reach-written :
        (i : ℕ) (x : MapPair) → slot written i ≡ some x → find x.key capacity written ≡ some i
    reach-written i x f = elim (Bool-cases (j == i)) [
      | inl y ↦
          let one : j ≡ i = ground arith in
          let g = slot-written in
          let g' = rw one at g in
          let pair : e ≡ x = cc in
          rw (← pair, ← one) (find-written e.key j (rw slot-written (key_eq_refl e.key)) found)
      | inr n ↦
          let two : j ≢ i = ground arith in
          find-written x.key i (rw f (key_eq_refl x.key))
            (v.reach i x (rw (slot-set_ne t j i (some e) two) at f))
    ]

    pub IsTable-written : occupied written < capacity → IsTable capacity written
    IsTable-written room = record {
      sized = length-set t j (some e) ∙ v.sized;
      room = room;
      reach = reach-written;
    }
