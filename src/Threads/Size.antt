-- ===== src/Threads/Size.antt =====
-- P3B: xv6 Kernel threads/proc.c: the size that processes with the same page table share.
use compsci537_introduction.Common.{
  ℕ, zero, suc, ◌≡◌, ◌≢◌, refl, sym, ap, ◌∙◌, ◌⊎◌, inl, inr, true, false, not, ◌&&◌, Option, some,
  [], ◌∷◌, ◌==◌, ==_iff, get_elem?, Bool-cases, arith,
}
use mathlib.Core.Path.{subst}
use mathlib.Core.Option.{some-injective, none-ne-some}
use compsci537_introduction.Sched.Table.{is_unused}
use compsci537_introduction.Threads.Kernel.{
  Proc, Table, Services, Kernel, modify, share_size, grow_to, growproc, clone,
}
use compsci537_introduction.Threads.Slots.{get_elem?-modify_self, get_elem?-modify_ne}
use compsci537_introduction.Threads.Clone.{Cloned, refused, no_memory, thread, clone-Cloned}

-- Processes with the same page table have the same size, where slots in use count.
abbrev pub SameSize : Table → Type 0
SameSize ps =
    (i j : ℕ) (p q : Proc)
    → get_elem? ps i ≡ some p
    → get_elem? ps j ≡ some q
    → is_unused p.state ≡ false
    → is_unused q.state ≡ false
    → p.pgdir ≡ q.pgdir
    → p.sz ≡ q.sz

-- What the loop of `growproc` makes of a process.
record Shared (pgdir sz : ℕ) (p q : Proc) : Type 0 where
  table : q.pgdir ≡ p.pgdir
  state : q.state ≡ p.state
  size : ((p.pgdir ≡ pgdir) × (q.sz ≡ sz)) ⊎ ((p.pgdir ≢ pgdir) × (q.sz ≡ p.sz))

share_size_lem :
    (pgdir sz i : ℕ) (ps : Table) (q : Proc)
    → get_elem? (share_size pgdir sz ps) i ≡ some q
    → (p : Proc) × (get_elem? ps i ≡ some p) × Shared pgdir sz p q
unfolding share_size
share_size_lem pgdir sz i [] q h = absurd (none-ne-some _ h)
share_size_lem pgdir sz zero (p ∷ ps) q h = elim (Bool-cases (p.pgdir == pgdir)) [
  | inl y ↦
      let one : record p { sz = sz } ≡ q = some-injective _ _ (sym (rw (y, share_size) refl) ∙ h) in
      (
        p,
        refl,
        record {
          table = ap (λ (r : Proc). r.pgdir) (sym one);
          state = ap (λ (r : Proc). r.state) (sym one);
          size = inl ((==_iff p.pgdir pgdir).0 y, ap (λ (r : Proc). r.sz) (sym one));
        },
      )
  | inr n ↦
      let one : p ≡ q = some-injective _ _ (sym (rw (n, share_size) refl) ∙ h) in
      (
        p,
        refl,
        record {
          table = ap (λ (r : Proc). r.pgdir) (sym one);
          state = ap (λ (r : Proc). r.state) (sym one);
          size = inr (ground arith, ap (λ (r : Proc). r.sz) (sym one));
        },
      )
]
share_size_lem pgdir sz (suc i) (p ∷ ps) q h = share_size_lem pgdir sz i ps q h

-- The slot `cur` with a new size, where its page table is the one of the loop.
module _ (cur sz : ℕ) (p : Proc) (ps : Table) (here : get_elem? ps cur ≡ some p)
    (same : SameSize ps) where
  abbrev sized : Table
  sized = modify cur (λ q. record q { sz = sz }) ps

  -- Another page table stands in another slot, which is as before.
  other_table :
      (i : ℕ) (q : Proc) → get_elem? sized i ≡ some q → q.pgdir ≢ p.pgdir → get_elem? ps i ≡ some q
  other_table i q h ne = elim (Bool-cases (cur == i)) [
    | inl y ↦
        let at_cur = get_elem?-modify_self cur (λ q. record q { sz = sz }) ps p here in
        let one : q ≡ record p { sz = sz } =
          some-injective _ _ (sym h ∙ ap (get_elem? sized) (sym ((==_iff cur i).0 y)) ∙ at_cur) in
        absurd (ne (ap (λ (r : Proc). r.pgdir) one))
    | inr n ↦ sym (get_elem?-modify_ne cur i (λ q. record q { sz = sz }) ps (ground arith)) ∙ h
  ]

  shared-SameSize : SameSize (share_size p.pgdir sz sized)
  shared-SameSize i j q r hi hj live live' tables =
      let (q0, qi, qs) = share_size_lem p.pgdir sz i sized q hi in
      let (r0, rj, rs) = share_size_lem p.pgdir sz j sized r hj in
      let before : q0.pgdir ≡ r0.pgdir = sym qs.table ∙ tables ∙ rs.table in
      elim qs.size [
        | inl (a, b) ↦ elim rs.size [
          | inl (c, d) ↦ b ∙ sym d
          | inr (c, d) ↦ absurd (c (sym before ∙ a))
        ]
        | inr (a, b) ↦ elim rs.size [
          | inl (c, d) ↦ absurd (a (before ∙ c))
          | inr (c, d) ↦
              let old = other_table i q0 qi a in
              let old' = other_table j r0 rj c in
              b
              ∙ same i j q0 r0 old old' (ap is_unused (sym qs.state) ∙ live)
                  (ap is_unused (sym rs.state) ∙ live') before
              ∙ sym d
        ]
      ]

grow_to-SameSize :
    (sv : Services) (cur : ℕ) (p : Proc) (n sz : ℕ) (k : Kernel sv.World)
    → get_elem? k.procs cur ≡ some p
    → SameSize k.procs
    → SameSize (grow_to sv cur p n sz k).1.procs
unfolding grow_to
grow_to-SameSize sv cur p n sz k here same = elim (Bool-cases ((sz == 0) && not (n == 0))) [
  | inl y ↦ rw (y, grow_to) same
  | inr m ↦ rw (m, grow_to) (shared-SameSize cur sz p k.procs here same)
]

growproc-SameSize :
    (sv : Services) (cur : ℕ) (p : Proc) (n : ℕ) (k : Kernel sv.World)
    → get_elem? k.procs cur ≡ some p
    → SameSize k.procs
    → SameSize (growproc sv cur p n k).1.procs
unfolding growproc
growproc-SameSize sv cur p n k here same = grow_to-SameSize sv cur p n _ _ here same

-- A table with one slot written to.
slot_cases :
    (i : ℕ) (ps qs : Table) (t : Proc)
    → ((j : ℕ) → i ≢ j → get_elem? qs j ≡ get_elem? ps j)
    → get_elem? qs i ≡ some t
    → (j : ℕ) (q : Proc) → get_elem? qs j ≡ some q
    → (q ≡ t) ⊎ (get_elem? ps j ≡ some q)
slot_cases i ps qs t others here j q h = elim (Bool-cases (i == j)) [
  | inl y ↦ inl (some-injective _ _ (sym h ∙ ap (get_elem? qs) (sym ((==_iff i j).0 y)) ∙ here))
  | inr n ↦ inr (sym (others j (ground arith)) ∙ h)
]

-- The new process of a table, when it is not in use or has the size of one with its page table.
module _ (cur i : ℕ) (parent t : Proc) (ps qs : Table) (same : SameSize ps)
    (here : get_elem? ps cur ≡ some parent) (alive : is_unused parent.state ≡ false)
    (others : (j : ℕ) → i ≢ j → get_elem? qs j ≡ get_elem? ps j)
    (slot : get_elem? qs i ≡ some t) where
  unused-SameSize : is_unused t.state ≡ true → SameSize qs
  unused-SameSize free a b p q ha hb live live' tables =
      elim (slot_cases i ps qs t others slot a p ha) [
        | inl one ↦ absurd (let k = ap (λ (r : Proc). is_unused r.state) one in cc)
        | inr old ↦ elim (slot_cases i ps qs t others slot b q hb) [
          | inl one ↦ absurd (let k = ap (λ (r : Proc). is_unused r.state) one in cc)
          | inr old' ↦ same a b p q old old' live live' tables
        ]
      ]

  thread-SameSize : t.pgdir ≡ parent.pgdir → t.sz ≡ parent.sz → SameSize qs
  thread-SameSize table size a b p q ha hb live live' tables =
      elim (slot_cases i ps qs t others slot a p ha) [
        | inl one ↦
            let p_size : p.sz ≡ parent.sz = ap (λ (r : Proc). r.sz) one ∙ size in
            let p_table : p.pgdir ≡ parent.pgdir = ap (λ (r : Proc). r.pgdir) one ∙ table in
            elim (slot_cases i ps qs t others slot b q hb) [
              | inl one' ↦ p_size ∙ sym (ap (λ (r : Proc). r.sz) one' ∙ size)
              | inr old' ↦ p_size ∙ same cur b parent q here old' alive live' (sym p_table ∙ tables)
            ]
        | inr old ↦ elim (slot_cases i ps qs t others slot b q hb) [
          | inl one' ↦
              let q_size : q.sz ≡ parent.sz = ap (λ (r : Proc). r.sz) one' ∙ size in
              let q_table : q.pgdir ≡ parent.pgdir = ap (λ (r : Proc). r.pgdir) one' ∙ table in
              same a cur p parent old here live alive (tables ∙ q_table) ∙ sym q_size
          | inr old' ↦ same a b p q old old' live live' tables
        ]
      ]

after_clone-SameSize :
    (sv : Services) (cur : ℕ) (parent : Proc) (fcn arg1 arg2 stack : ℕ) (k : Kernel sv.World)
    (r : Option ℕ) (k' : Kernel sv.World)
    → get_elem? k.procs cur ≡ some parent
    → is_unused parent.state ≡ false
    → SameSize k.procs
    → Cloned sv cur parent fcn arg1 arg2 stack k r k'
    → SameSize k'.procs
after_clone-SameSize sv cur parent fcn arg1 arg2 stack k r k' here alive same (refused why e kept) =
    subst (λ u. SameSize u.procs) (sym kept) same
after_clone-SameSize sv cur parent fcn arg1 arg2 stack k r k' here alive same
      (no_memory i old q takes empty was unused e at free others mem) =
    unused-SameSize cur i parent q k.procs k'.procs same here alive others at (ap is_unused free)
after_clone-SameSize sv cur parent fcn arg1 arg2 stack k r k' here alive same
      (thread i p t takes given old free e at is page others mem moved) =
    thread-SameSize cur i parent t k.procs k'.procs same here alive others at is.shares.0
      is.shares.1

-- `clone` and `growproc` keep all processes in use that share a page table at the same size, whatever
-- the other parts of the kernel return, when a process in use that stands in the table calls them.
pub sizes_kept :
    (sv : Services) (cur : ℕ) (p : Proc) (k : Kernel sv.World)
    → get_elem? k.procs cur ≡ some p
    → is_unused p.state ≡ false
    → SameSize k.procs
    → ((n : ℕ) → SameSize (growproc sv cur p n k).1.procs)
      × ((fcn arg1 arg2 stack : ℕ) → SameSize (clone sv cur p fcn arg1 arg2 stack k).1.procs)
sizes_kept sv cur p k here alive same = (
  λ n. growproc-SameSize sv cur p n k here same,
  λ fcn arg1 arg2 stack.
      after_clone-SameSize sv cur p fcn arg1 arg2 stack k _ _ here alive same
        (clone-Cloned sv cur p fcn arg1 arg2 stack k),
)
