-- ===== src/MapReduce/HashMap/Resize.antt =====
-- P3A: MapReduce/hashmap.c: the loop of `resize_map`.
use compsci537_introduction.Common.{
  ℕ, suc, ◌+◌, ◌<◌, ◌≡◌, refl, ◌≢◌, false, Option, none, some, [], ◌∷◌, List, arith, inl, inr, ◌⊎◌,
  Bool-cases, Option-cases, ◌==◌, replicate, length-replicate,
}
use compsci537_introduction.MapReduce.Key.{Key, key_eq_iff}
use compsci537_introduction.MapReduce.HashMap.{
  MapPair, Contents, ends_for, is_vacant, hash, probe, find, rehash,
}
use compsci537_introduction.MapReduce.HashMap.Probe.{slot, slot-set_ne, probe_mono}
use compsci537_introduction.MapReduce.HashMap.Spec.{
  entry_of, entry_of-missing, occupied, occupied-set_vacant, entry_of-replicate, occupied-replicate,
  slot-replicate,
}
use compsci537_introduction.MapReduce.HashMap.Table.{
  IsTable, find_total, find-ends, written, slot-written, entry_of-written, IsTable-written,
}

-- No two slots have the same key,
abbrev pub Distinct : Contents → Type 0
Distinct t =
    (i j : ℕ) (x y : MapPair) → slot t i ≡ some x → slot t j ≡ some y → x.key ≡ y.key → i ≡ j

-- and no slot of one table has a key of the other.
abbrev pub Apart : Contents → Contents → Type 0
Apart s t = (i j : ℕ) (x y : MapPair) → slot s i ≡ some x → slot t j ≡ some y → x.key ≢ y.key

abbrev pub or_else : Option (List ℕ) → Option (List ℕ) → Option (List ℕ)
or_else none o = o
or_else (some x) o = some x

-- The loop over the slots `rest` of the old array, from the new array `temp`.
pub record Rehashed (capacity : ℕ) (rest temp temp' : Contents) : Type 0 where
  pub table : IsTable capacity temp'
  pub maps : (k : Key) → entry_of k temp' ≡ or_else (entry_of k rest) (entry_of k temp)
  pub counted : occupied temp' ≡ occupied temp + occupied rest

module _ (capacity : ℕ) (e : MapPair) (rest temp : Contents) (t : IsTable capacity temp)
    (apart : Apart (some e ∷ rest) temp) where
  -- The slot where a search for the pair's key ends is the vacant slot that the loop takes.
  vacant_slot :
      (j : ℕ) × (find e.key capacity temp ≡ some j)
      × (slot temp j ≡ none)
      × (probe is_vacant capacity capacity temp (hash e.key capacity) ≡ some j)
  unfolding find
  vacant_slot =
      let (j, f) = find_total capacity temp t e.key in
      let ends = find-ends capacity temp t e.key j f in
      let vacant : slot temp j ≡ none = elim (Option-cases (slot temp j)) [
        | inl n ↦ n
        | inr (y, g) ↦
            let ne = apart 0 j e y refl g in
            let hit = rw g at ends.0 in absurd (ne ((key_eq_iff e.key y.key).0 hit))
      ] in
      (
        j,
        f,
        vacant,
        probe_mono (ends_for e.key) is_vacant capacity capacity temp temp (hash e.key capacity) j
            (λ i h. taken i h (Option-cases (slot temp i))) (rw vacant refl) f,
      )
    where
      taken :
          (i : ℕ)
          → ends_for e.key (slot temp i) ≡ false
          → (slot temp i ≡ none) ⊎ ((y : MapPair) × (slot temp i ≡ some y))
          → is_vacant (slot temp i) ≡ false
      taken i h (inl n) = let bad = rw n at h in cc
      taken i h (inr (y, g)) = rw g refl

  Apart-written :
      (j : ℕ) (f : find e.key capacity temp ≡ some j)
      → Distinct (some e ∷ rest)
      → Apart rest (written capacity temp t e j f)
  Apart-written j f distinct i l x y g h same = elim (Bool-cases (j == l)) [
    | inl eq ↦
        let one : j ≡ l = ground arith in
        let w = rw one at (slot-written capacity temp t e j f) in
        let pair : e ≡ y = cc in
        let index = distinct (suc i) 0 x e g refl (rw pair same) in absurd (omega arith)
    | inr ne ↦
        let two : j ≢ l = ground arith in
        apart (suc i) l x y g (rw (slot-set_ne temp j l (some e) two) at h) same
  ]

pub rehash-Rehashed :
    (capacity : ℕ) (rest temp : Contents)
    → IsTable capacity temp
    → Distinct rest
    → Apart rest temp
    → occupied temp + occupied rest < capacity
    → (temp' : Contents) × (rehash capacity rest temp ≡ some temp')
      × Rehashed capacity rest temp temp'
unfolding rehash entry_of occupied
rehash-Rehashed capacity [] temp t distinct apart room =
    (temp, refl, record { table = t; maps = λ k. refl; counted = omega arith })
rehash-Rehashed capacity (none ∷ rest) temp t distinct apart room =
    let (temp', e, r) =
      rehash-Rehashed capacity rest temp t
        (λ i j x y f g s. let o = distinct (suc i) (suc j) x y f g s in omega arith)
        (λ i j. apart (suc i) j) room in
    (temp', e, record { table = r.table; maps = r.maps; counted = r.counted })
rehash-Rehashed capacity (some e ∷ rest) temp t distinct apart room =
    let (j, f, vacant, p) = vacant_slot capacity e rest temp t apart in
    let more = occupied-set_vacant temp j e (find-ends capacity temp t e.key j f).1 vacant in
    let next = written capacity temp t e j f in
    let (temp', q, r) =
      rehash-Rehashed capacity rest next (IsTable-written capacity temp t e j f (omega arith))
        (λ i j x y f g s. let o = distinct (suc i) (suc j) x y f g s in omega arith)
        (Apart-written capacity e rest temp t apart j f distinct) (omega arith) in
    let counted = r.counted in
    let absent : entry_of e.key rest ≡ none =
      entry_of-missing e.key rest
        (λ i x g s. let o = distinct (suc i) 0 x e g refl s in absurd (omega arith)) in
    (
      temp',
      rw (p, rehash) q,
      record {
        table = r.table;
        maps = λ k.
            ground (
              arith,
              r.maps k,
              entry_of-written capacity temp t e j f k,
              key_eq_iff k e.key,
              absent,
            );
        counted = omega arith;
      },
    )

-- The new array before the loop.
pub empty-IsTable : (n : ℕ) → 0 < n → IsTable n (replicate n none)
empty-IsTable n h = record {
  sized = length-replicate n none;
  room = rw (occupied-replicate n) h;
  reach = λ j e f. let g = slot-replicate n j in cc;
}

pub rehash_all :
    (capacity : ℕ) (t : Contents)
    → Distinct t
    → occupied t < capacity
    → (temp' : Contents) × (rehash capacity t (replicate capacity none) ≡ some temp')
      × IsTable capacity temp'
      × ((k : Key) → entry_of k temp' ≡ entry_of k t)
      × (occupied temp' ≡ occupied t)
rehash_all capacity t distinct room =
    let zero_pairs = occupied-replicate capacity in
    let (temp', e, r) =
      rehash-Rehashed capacity t (replicate capacity none) (empty-IsTable capacity (omega arith))
        distinct (λ i j x y f g. let h = slot-replicate capacity j in cc) (omega arith) in
    let counted = r.counted in
    (temp', e, r.table, λ k. ground (arith, r.maps k, entry_of-replicate k capacity), omega arith)
