-- ===== src/Encrypt/WorkingSet.antt =====
-- P4: xv6 Memory Encryption/vm.c: the pages in the clear are those in the clock queue.
pub mod Pass
pub mod Insert
use compsci537_introduction.Common.{
  ℕ, zero, suc, ◌+◌, ◌*◌, ◌/◌, ◌%◌, ◌<◌, ◌≡◌, ◌≢◌, refl, sym, ap, ◌∙◌, ◌⊎◌, inl, inr, Bool, true,
  false, not, Option, none, some, arith, Bool-cases, ◌==◌, ==_iff,
}
use mathlib.Core.Path.{subst}
use compsci537_introduction.Common.Maps.{update, update_self, update_ne}
use compsci537_introduction.Encrypt.{
  Pte, Node, Vm, no_page, clocksize, set_entry, flip_frame, put_node,
}
use compsci537_introduction.Encrypt.View.{IsSane, SamePage, entry_cases, mark-IsSane, toggle-IsSane}

-- A page that its process can use as it is.
pub record IsClear (e : Pte) : Type 0 where
  pub user : e.user ≡ true
  pub present : e.present ≡ true
  pub readable : e.encrypted ≡ false

-- A node holds its page's address and entry, and the page is in the clear.
pub record Placed (entries : ℕ → Option Pte) (node : Node) : Type 0 where
  pub address : node.vpn ≡ node.pte * 4096
  pub range : node.pte < 1048576
  pub entry : (e : Pte) × (entries node.pte ≡ some e) × IsClear e

unfoldable pub InQueue : (ℕ → Node) → ℕ → Type 0
InQueue queue p = (i : ℕ) × (i < clocksize) × ((queue i).vpn ≡ p * 4096)

-- No two nodes hold the same page.
abbrev pub Once : (ℕ → Node) → Type 0
Once queue =
    (i j : ℕ)
    → i < clocksize
    → j < clocksize
    → (queue i).vpn ≢ no_page
    → (queue i).vpn ≡ (queue j).vpn
    → i ≡ j

-- What holds between system calls: the pages in the clear are those of the queue, each in one node.
pub record IsWorkingSet (vm : Vm) : Type 0 where
  pub sane : IsSane vm
  pub hand : (vm.clock_index ≡ 4294967295) ⊎ (vm.clock_index < clocksize)
  pub placed : (i : ℕ) → i < clocksize → (vm.queue i).vpn ≢ no_page → Placed vm.entries (vm.queue i)
  pub once : Once vm.queue
  pub covered : (p : ℕ) (e : Pte) → vm.entries p ≡ some e → IsClear e → InQueue vm.queue p

-- The same while the page `x` is in the clear and waits for a node.
pub record IsPending (vm : Vm) (x : ℕ) : Type 0 where
  pub sane : IsSane vm
  pub range : x < 1048576
  pub clear : (e : Pte) × (vm.entries x ≡ some e) × IsClear e
  pub outside : (i : ℕ) → i < clocksize → (vm.queue i).vpn ≢ x * 4096
  pub placed : (i : ℕ) → i < clocksize → (vm.queue i).vpn ≢ no_page → Placed vm.entries (vm.queue i)
  pub once : Once vm.queue
  pub covered : (p : ℕ) (e : Pte) → vm.entries p ≡ some e → IsClear e → (p ≡ x) ⊎ InQueue vm.queue p

-- The same with the node `i` given up.
pub record IsFreed (vm : Vm) (x i : ℕ) : Type 0 where
  pub sane : IsSane vm
  pub range : x < 1048576
  pub slot : i < clocksize
  pub clear : (e : Pte) × (vm.entries x ≡ some e) × IsClear e
  pub outside : (j : ℕ) → j < clocksize → (vm.queue j).vpn ≢ x * 4096
  pub placed :
      (j : ℕ) → j < clocksize → j ≢ i → (vm.queue j).vpn ≢ no_page → Placed vm.entries (vm.queue j)
  pub once : Once vm.queue
  pub covered :
      (p : ℕ) (e : Pte)
      → vm.entries p ≡ some e
      → IsClear e
      → (p ≡ x) ⊎ ((j : ℕ) × (j < clocksize) × (j ≢ i) × ((vm.queue j).vpn ≡ p * 4096))

pub moved-IsSane : (vm : Vm) (i : ℕ) → IsSane vm → IsSane (record vm { clock_index = i })
moved-IsSane vm i s = record { bytes = s.bytes; own = s.own; exclusive = s.exclusive }

-- The page takes the node that was given up.
module _ (vm : Vm) (x i : ℕ) (f : IsFreed vm x i) where
  abbrev node : Node
  node = record { vpn = x * 4096; pte = x }

  abbrev queue : ℕ → Node
  queue = update vm.queue i node

  at_slot : queue i ≡ node
  at_slot = update_self vm.queue i node

  elsewhere : (j : ℕ) → j ≢ i → queue j ≡ vm.queue j
  elsewhere j h = update_ne vm.queue i node j h

  settled_nodes : (j : ℕ) → j < clocksize → (queue j).vpn ≢ no_page → Placed vm.entries (queue j)
  settled_nodes j lt h = elim (Bool-cases (j == i)) [
    | inl y ↦
        let eq : queue j ≡ node = ap queue ((==_iff j i).0 y) ∙ at_slot in
        subst (Placed vm.entries) (sym eq)
          (record { address = refl; range = f.range; entry = f.clear })
    | inr n ↦
        let ne : j ≢ i = ground arith in
        let eq = elsewhere j ne in
        subst (Placed vm.entries) (sym eq) (f.placed j lt ne (rw eq at h))
  ]

  settled_once : Once queue
  settled_once j k lj lk h same = elim (Bool-cases (j == i)) [
    | inl y ↦
        let jn : j ≡ i = (==_iff j i).0 y in
        elim (Bool-cases (k == i)) [
          | inl z ↦ jn ∙ sym ((==_iff k i).0 z)
          | inr m ↦
              let eq = elsewhere k (ground arith) in
              absurd (
                f.outside k lk (
                  ap (λ (n : Node). n.vpn) (sym eq)
                  ∙ sym same
                  ∙ ap (λ l. (queue l).vpn) jn
                  ∙ ap (λ (n : Node). n.vpn) at_slot))
        ]
    | inr n ↦
        let eqj = elsewhere j (ground arith) in
        elim (Bool-cases (k == i)) [
          | inl z ↦
              let kn : k ≡ i = (==_iff k i).0 z in
              absurd (
                f.outside j lj (
                  ap (λ (n : Node). n.vpn) (sym eqj)
                  ∙ same
                  ∙ ap (λ l. (queue l).vpn) kn
                  ∙ ap (λ (n : Node). n.vpn) at_slot))
          | inr m ↦
              let eqk = elsewhere k (ground arith) in
              f.once j k lj lk (rw eqj at h) (rw (eqj, eqk) at same)
        ]
  ]

  settled_covered : (p : ℕ) (e : Pte) → vm.entries p ≡ some e → IsClear e → InQueue queue p
  unfolding InQueue
  settled_covered p e h c = elim (f.covered p e h c) [
    | inl is_x ↦ (i, f.slot, ap (λ (n : Node). n.vpn) at_slot ∙ ap (λ q. q * 4096) (sym is_x))
    | inr (j, lt, ne, at_p) ↦ (j, lt, ap (λ (n : Node). n.vpn) (elsewhere j ne) ∙ at_p)
  ]

  pub settled : IsWorkingSet (put_node i node (record vm { clock_index = i }))
  settled = record {
    sane = record { bytes = f.sane.bytes; own = f.sane.own; exclusive = f.sane.exclusive };
    hand = inr f.slot;
    placed = settled_nodes;
    once = settled_once;
    covered = settled_covered;
  }
