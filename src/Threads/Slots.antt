-- ===== src/Threads/Slots.antt =====
-- P3B: xv6 Kernel threads/proc.c: the slots of the process table.
use compsci537_introduction.Common.{
  ℕ, zero, suc, ◌+◌, ◌≡◌, ◌≢◌, refl, sym, ap, ◌∙◌, inl, inr, Bool, true, false, none, some, [], ◌∷◌,
  get_elem?, Bool-cases, arith,
}
use mathlib.Core.Option.{some-injective, none-ne-some}
use compsci537_introduction.Threads.Kernel.{Proc, Table, modify, find_slot}

pub get_elem?-modify_self :
    (i : ℕ) (f : Proc → Proc) (ps : Table) (p : Proc)
    → get_elem? ps i ≡ some p
    → get_elem? (modify i f ps) i ≡ some (f p)
unfolding modify
get_elem?-modify_self i f [] p h = absurd (none-ne-some _ h)
get_elem?-modify_self zero f (q ∷ ps) p h = ap (λ r. some (f r)) (some-injective _ _ h)
get_elem?-modify_self (suc i) f (q ∷ ps) p h = get_elem?-modify_self i f ps p h

pub get_elem?-modify_ne :
    (i j : ℕ) (f : Proc → Proc) (ps : Table) → i ≢ j → get_elem? (modify i f ps) j ≡ get_elem? ps j
unfolding modify
get_elem?-modify_ne i j f [] ne = refl
get_elem?-modify_ne zero zero f (p ∷ ps) ne = absurd (ne refl)
get_elem?-modify_ne zero (suc j) f (p ∷ ps) ne = refl
get_elem?-modify_ne (suc i) zero f (p ∷ ps) ne = refl
get_elem?-modify_ne (suc i) (suc j) f (p ∷ ps) ne =
    get_elem?-modify_ne i j f ps (λ e. ne (ap suc e))

-- The slot that the search finds passes the test.
pub find_slot_lem :
    (test : Proc → Bool) (i n : ℕ) (ps : Table)
    → find_slot test i ps ≡ some n
    → (k : ℕ) × (p : Proc) × (n ≡ i + k) × (get_elem? ps k ≡ some p) × (test p ≡ true)
unfolding find_slot
find_slot_lem test i n [] h = absurd (none-ne-some _ h)
find_slot_lem test i n (p ∷ ps) h = elim (Bool-cases (test p)) [
  | inl y ↦
      let here : i ≡ n = some-injective _ _ (sym (rw (y, find_slot) refl) ∙ h) in
      (0, p, omega arith, refl, y)
  | inr m ↦
      let (k, q, at, e, t) = find_slot_lem test (i + 1) n ps (sym (rw (m, find_slot) refl) ∙ h) in
      (suc k, q, omega arith, e, t)
]

none_behind :
    (test : Proc → Bool) (q : Proc) (ps : Table)
    → test q ≡ false
    → ((k : ℕ) (p : Proc) → get_elem? ps k ≡ some p → test p ≡ false)
    → (k : ℕ) (p : Proc) → get_elem? (q ∷ ps) k ≡ some p
    → test p ≡ false
none_behind test q ps m later zero p e = ap test (sym (some-injective _ _ e)) ∙ m
none_behind test q ps m later (suc k) p e = later k p e

pub find_slot-none :
    (test : Proc → Bool) (i : ℕ) (ps : Table)
    → find_slot test i ps ≡ none
    → (k : ℕ) (p : Proc) → get_elem? ps k ≡ some p
    → test p ≡ false
unfolding find_slot
find_slot-none test i [] h k p e = absurd (none-ne-some _ e)
find_slot-none test i (q ∷ ps) h k p e = elim (Bool-cases (test q)) [
  | inl y ↦ absurd (none-ne-some _ (sym (rw (y, find_slot) at h)))
  | inr m ↦ none_behind test q ps m (find_slot-none test (i + 1) ps (rw (m, find_slot) at h)) k p e
]

abbrev pub SameBut : ℕ → Table → Table → Type 0
SameBut i ps qs = (j : ℕ) → i ≢ j → get_elem? qs j ≡ get_elem? ps j

pub modify_twice-SameBut :
    (i : ℕ) (f g : Proc → Proc) (ps : Table) → SameBut i ps (modify i g (modify i f ps))
modify_twice-SameBut i f g ps j h =
    get_elem?-modify_ne i j g (modify i f ps) h ∙ get_elem?-modify_ne i j f ps h
