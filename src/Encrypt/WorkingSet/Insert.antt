-- ===== src/Encrypt/WorkingSet/Insert.antt =====
-- P4: xv6 Memory Encryption/vm.c: the loop of `insertQueue`.
use compsci537_introduction.Common.{
  ℕ, zero, suc, ◌+◌, ◌*◌, ◌%◌, ◌<◌, ◌≡◌, ◌≢◌, refl, sym, ap, ◌∙◌, ◌⊎◌, inl, inr, true, false, some,
  arith, Bool-cases, ◌==◌, ==_iff,
}
use mathlib.Core.Path.{subst}
use compsci537_introduction.Common.Maps.{update, update_self, update_ne}
use compsci537_introduction.Encrypt.{
  Pte, Node, Vm, no_page, clocksize, set_entry, put_node, mencrypt, next_index, insert_loop,
}
use compsci537_introduction.Encrypt.View.{SameView, SameView-trans}
use compsci537_introduction.Encrypt.WorkingSet.{
  IsClear, InQueue, IsWorkingSet, IsPending, IsFreed, settled,
}
use compsci537_introduction.Encrypt.WorkingSet.Pass.{
  rested, moved, same_page, passed, passed-IsPending, passed-SameView, evicted, evicted-IsFreed,
  evicted-SameView, evicts,
}

-- Where the hand stops: at an empty node, or at a page that was not used.
abbrev pub Stops : Vm → ℕ → Type 0
Stops vm i =
    ((vm.queue i).vpn ≡ no_page)
    ⊎ ((e : Pte) × (vm.entries (vm.queue i).pte ≡ some e) × (e.accessed ≡ false))

abbrev hand : Vm → ℕ
hand vm = next_index vm.clock_index

-- The hand passes a page that was used.
skips :
    (fuel : ℕ) (node : Node) (vm : Vm) (e : Pte)
    → ((vm.queue (hand vm)).vpn == no_page) ≡ false
    → vm.entries (vm.queue (hand vm)).pte ≡ some e
    → e.accessed ≡ true
    → insert_loop (suc fuel) node vm
      ≡ insert_loop fuel node (set_entry (vm.queue (hand vm)).pte (rested e) (moved (hand vm) vm))
unfolding insert_loop
skips fuel node vm e full here used = rw (full, here, used) refl

-- The hand stops at a page that was not used.
takes :
    (fuel : ℕ) (node : Node) (vm vm' : Vm) (e : Pte)
    → ((vm.queue (hand vm)).vpn == no_page) ≡ false
    → vm.entries (vm.queue (hand vm)).pte ≡ some e
    → e.accessed ≡ false
    → mencrypt (vm.queue (hand vm)).vpn 1 (moved (hand vm) vm) ≡ some (true, vm')
    → insert_loop (suc fuel) node vm ≡ some (put_node (hand vm) node vm')
unfolding insert_loop
takes fuel node vm vm' e full here unused encrypted = rw (full, here, unused, encrypted) refl

lands :
    (fuel : ℕ) (node : Node) (vm : Vm)
    → (vm.queue (hand vm)).vpn ≡ no_page
    → insert_loop (suc fuel) node vm ≡ some (put_node (hand vm) node (moved (hand vm) vm))
unfolding insert_loop
lands fuel node vm empty = rw empty refl

-- The nodes in the order in which the hand comes to them.
next_stops :
    (i d : ℕ) → (next_index (next_index i) + d) % clocksize ≡ (next_index i + suc d) % clocksize
next_stops i d = omega arith

first_stops : (i : ℕ) → (next_index i + 0) % clocksize ≡ next_index i
first_stops i = omega arith

full_turn : (i : ℕ) → (next_index (next_index i) + 127) % clocksize ≡ next_index i
full_turn i = omega arith

-- A node that the hand has not passed yet stops it after a page was passed.
later_hand :
    (vm : Vm) (i q j : ℕ) (e : Pte)
    → vm.entries q ≡ some e
    → Stops vm j
    → Stops (set_entry q (rested e) (moved i vm)) j
later_hand vm i q j e here (inl empty) = inl empty
later_hand vm i q j e here (inr (f, there, unused)) = elim (Bool-cases ((vm.queue j).pte == q)) [
  | inl y ↦
      let eq : (vm.queue j).pte ≡ q = (==_iff (vm.queue j).pte q).0 y in
      inr (
        rested e,
        ap (update vm.entries q (some (rested e))) eq ∙ update_self vm.entries q (some (rested e)),
        refl,
      )
  | inr n ↦
      inr (
        f,
        update_ne vm.entries q (some (rested e)) (vm.queue j).pte (ground arith) ∙ there,
        unused,
      )
]

-- A node that holds a used page does not stop the hand.
goes_on :
    (vm : Vm) (j : ℕ) (e : Pte)
    → Stops vm j
    → (vm.queue j).vpn ≢ no_page
    → vm.entries (vm.queue j).pte ≡ some e
    → e.accessed ≢ true
goes_on vm j e (inl empty) busy here used = busy empty
goes_on vm j e (inr (f, there, unused)) busy here used = let one : f ≡ e = cc in ground arith

module _ (x : ℕ) where
  abbrev own_node : Node
  own_node = record { vpn = x * 4096; pte = x }

  abbrev pub Inserted : ℕ → Vm → Type 0
  Inserted fuel vm =
      (vm' : Vm) × (insert_loop fuel own_node vm ≡ some vm')
      × IsWorkingSet vm'
      × SameView vm vm'
      × (vm'.clock_index < clocksize)
      × ((vm'.queue vm'.clock_index).vpn ≡ x * 4096)

  at_hand : (i : ℕ) (vm : Vm) → (update vm.queue i own_node i).vpn ≡ x * 4096
  at_hand i vm = ap (λ (n : Node). n.vpn) (update_self vm.queue i own_node)

  empty-IsFreed :
      (i : ℕ) (vm : Vm)
      → IsPending vm x
      → i < clocksize
      → (vm.queue i).vpn ≡ no_page
      → IsFreed vm x i
  unfolding InQueue
  empty-IsFreed i vm s lt empty = record {
    sane = s.sane;
    range = s.range;
    slot = lt;
    clear = s.clear;
    outside = s.outside;
    placed = λ j lj ne full. s.placed j lj full;
    once = s.once;
    covered = λ p f h d. elim (s.covered p f h d) [
      | inl is_x ↦ inl is_x
      | inr (j, lj, at_p) ↦
          let own = (s.placed j lj) in
          inr (j, lj, (λ eq. let k = ap (λ l. (vm.queue l).vpn) eq in omega arith), at_p)
    ];
  }

  insert_empty :
      (fuel : ℕ) (vm : Vm)
      → IsPending vm x
      → (vm.queue (hand vm)).vpn ≡ no_page
      → Inserted (suc fuel) vm
  insert_empty fuel vm s empty =
      let lt : hand vm < clocksize = omega arith in
      (
        put_node (hand vm) own_node (moved (hand vm) vm),
        lands fuel own_node vm empty,
        settled vm x (hand vm) (empty-IsFreed (hand vm) vm s lt empty),
        record { pages = λ p e h. (e, h, same_page e); contents = λ p e h m. refl },
        omega arith,
        at_hand (hand vm) vm,
      )

  insert_unused :
      (fuel : ℕ) (vm : Vm) (e : Pte)
      → IsPending vm x
      → ((vm.queue (hand vm)).vpn == no_page) ≡ false
      → vm.entries (vm.queue (hand vm)).pte ≡ some e
      → IsClear e
      → e.accessed ≡ false
      → Inserted (suc fuel) vm
  insert_unused fuel vm e s full here c unused =
      let i = hand vm in
      let lt : i < clocksize = omega arith in
      let busy : (vm.queue i).vpn ≢ no_page = ground arith in
      let after = evicted vm x i e s lt here c busy in
      let v = evicted-SameView vm x i e s lt here c busy in
      (
        put_node i own_node after,
        takes fuel own_node vm after e full here unused (evicts vm x i e s lt here c busy),
        settled after x i (evicted-IsFreed vm x i e s lt here c busy),
        record { pages = v.pages; contents = v.contents },
        lt,
        at_hand i after,
      )

  -- The hand passes a page that was used and stops later.
  insert_later :
      (d fuel : ℕ) (vm : Vm) (e : Pte)
      → IsPending vm x
      → Stops vm ((next_index vm.clock_index + d) % clocksize)
      → d < suc fuel
      → ((vm.queue (hand vm)).vpn == no_page) ≡ false
      → vm.entries (vm.queue (hand vm)).pte ≡ some e
      → IsClear e
      → e.accessed ≡ true
      → ((d' : ℕ) (vm' : Vm)
          → IsPending vm' x
          → Stops vm' ((next_index vm'.clock_index + d') % clocksize)
          → d' < fuel
          → Inserted fuel vm')
      → Inserted (suc fuel) vm
  insert_later zero fuel vm e s stops enough full here c used rest = absurd (
      goes_on vm (hand vm) e (subst (Stops vm) (first_stops vm.clock_index) stops) (ground arith)
        here used)
  insert_later (suc d) fuel vm e s stops enough full here c used rest =
      let q = (vm.queue (hand vm)).pte in
      let later = later_hand vm (hand vm) q ((hand vm + suc d) % clocksize) e here stops in
      let after = passed vm x (hand vm) q e s here c in
      let (vm', f, w, v, low, top) =
        rest d after (passed-IsPending vm x (hand vm) q e s here c)
          (subst (Stops after) (sym (next_stops vm.clock_index d)) later) (omega arith) in
      (
        vm',
        skips fuel own_node vm e full here used ∙ f,
        w,
        SameView-trans vm after vm' (passed-SameView vm x (hand vm) q e s here c) v,
        low,
        top,
      )

  -- The hand stops after `d` more nodes, if it stops at the next node but `d`.
  pub insert_ends :
      (d fuel : ℕ) (vm : Vm)
      → IsPending vm x
      → Stops vm ((next_index vm.clock_index + d) % clocksize)
      → d < fuel
      → Inserted fuel vm
  insert_ends d zero vm s stops enough = absurd (omega arith)
  insert_ends d (suc fuel) vm s stops enough =
      elim (Bool-cases ((vm.queue (hand vm)).vpn == no_page)) [
        | inl y ↦ insert_empty fuel vm s ((==_iff _ _).0 y)
        | inr full ↦
            let lt : hand vm < clocksize = omega arith in
            let (e, here, c) = (s.placed (hand vm) lt (ground arith)).entry in
            elim (Bool-cases e.accessed) [
              | inr unused ↦ insert_unused fuel vm e s full here c unused
              | inl used ↦
                  insert_later d fuel vm e s stops enough full here c used
                    (λ d' vm'. insert_ends d' fuel vm')
            ]
      ]

  -- The second time round the hand stops where it started, if it has passed every node.
  pub inserts : (fuel : ℕ) (vm : Vm) → 128 < fuel → IsPending vm x → Inserted fuel vm
  inserts zero vm lt s = absurd (omega arith)
  inserts (suc fuel) vm lt s = elim (Bool-cases ((vm.queue (hand vm)).vpn == no_page)) [
    | inl y ↦ insert_empty fuel vm s ((==_iff _ _).0 y)
    | inr full ↦
        let small : hand vm < clocksize = omega arith in
        let (e, here, c) = (s.placed (hand vm) small (ground arith)).entry in
        let q = (vm.queue (hand vm)).pte in
        elim (Bool-cases e.accessed) [
          | inr unused ↦ insert_unused fuel vm e s full here c unused
          | inl used ↦
              let after = passed vm x (hand vm) q e s here c in
              let (vm', f, w, v, low, top) =
                insert_ends 127 fuel after (passed-IsPending vm x (hand vm) q e s here c)
                  (subst (Stops after) (sym (full_turn vm.clock_index))
                    (inr (rested e, update_self vm.entries q (some (rested e)), refl)))
                  (omega arith) in
              (
                vm',
                skips fuel own_node vm e full here used ∙ f,
                w,
                SameView-trans vm after vm' (passed-SameView vm x (hand vm) q e s here c) v,
                low,
                top,
              )
        ]
  ]
