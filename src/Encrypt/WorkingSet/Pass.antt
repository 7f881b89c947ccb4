-- ===== src/Encrypt/WorkingSet/Pass.antt =====
-- P4: xv6 Memory Encryption/vm.c: what the hand of the clock does to a page that it comes to.
use compsci537_introduction.Common.{
  ℕ, ◌*◌, ◌/◌, ◌%◌, ◌<◌, ◌≡◌, ◌≢◌, refl, sym, ap, ◌∙◌, inl, inr, true, false, Option, some, arith,
  Bool-cases, ◌==◌, ==_iff,
}
use compsci537_introduction.Common.Maps.{update, update_self, update_ne}
use compsci537_introduction.Encrypt.{
  Pte, Vm, is_mapped, no_page, clocksize, set_entry, flip_frame, uva2ka, encrypt_page,
  encrypt_pages, mencrypt,
}
use compsci537_introduction.Encrypt.View.{
  is_usable, SamePage, SameView, SameView-trans, entry_cases, mark-IsSane, mark-SameView,
  toggle-IsSane, toggle-SameView,
}
use compsci537_introduction.Encrypt.WorkingSet.{IsClear, InQueue, IsPending, IsFreed, moved-IsSane}

-- The entry without its bit of use, and the entry of the page when it is encrypted.
abbrev pub rested : Pte → Pte
rested e = record e { accessed = false }

abbrev pub hidden : Pte → Pte
hidden e = record e { present = false; encrypted = true }

abbrev pub moved : ℕ → Vm → Vm
moved i vm = record vm { clock_index = i }

pub same_page : (e : Pte) → SamePage e e
same_page e = record { frame = refl; user = refl; writable = refl; mapped = refl }

moved-SameView : (i : ℕ) (vm : Vm) → SameView vm (moved i vm)
moved-SameView i vm = record { pages = λ p e h. (e, h, same_page e); contents = λ p e h m. refl }

pub uva2ka_mapped :
    (vm : Vm) (p : ℕ) (e : Pte)
    → vm.entries p ≡ some e
    → is_mapped e ≡ true
    → uva2ka p vm ≡ some (some e)
unfolding uva2ka
uva2ka_mapped vm p e here mapped = rw (here, uva2ka) (rw mapped refl)

pub IsClear-mapped : (e : Pte) → IsClear e → is_mapped e ≡ true
IsClear-mapped e c = let u = c.user in let pr = c.present in ground arith

pub IsClear-usable : (e : Pte) → IsClear e → is_usable e ≡ true
IsClear-usable e c = let u = c.user in let pr = c.present in ground arith

-- `mencrypt` of one page in the clear.
pub encrypts :
    (vm : Vm) (p : ℕ) (e : Pte)
    → vm.entries p ≡ some e
    → IsClear e
    → encrypt_page p vm ≡ some (flip_frame e.frame (set_entry p (hidden e) vm))
unfolding encrypt_page
encrypts vm p e here c =
    rw (uva2ka_mapped vm p e here (IsClear-mapped e c), encrypt_page) (simp (c.readable))

-- The hand passes a page that was used.
module _ (vm : Vm) (x i q : ℕ) (e : Pte) (s : IsPending vm x) (here : vm.entries q ≡ some e)
    (c : IsClear e) where
  abbrev pub passed : Vm
  passed = set_entry q (rested e) (moved i vm)

  rested_alike : SamePage e (rested e)
  rested_alike = record { frame = refl; user = refl; writable = refl; mapped = refl }

  not_hidden : (rested e).encrypted ≡ true → (rested e).present ≡ false
  not_hidden h = absurd (let r = c.readable in cc)

  -- A clear page stays clear, with its entry or the one of the page passed.
  passed_entry :
      (p : ℕ) (f : Pte)
      → vm.entries p ≡ some f
      → IsClear f
      → (f' : Pte) × (update vm.entries q (some (rested e)) p ≡ some f') × IsClear f'
  passed_entry p f h d = elim (Bool-cases (p == q)) [
    | inl y ↦
        let eq : p ≡ q = (==_iff p q).0 y in
        (
          rested e,
          ap (update vm.entries q (some (rested e))) eq
              ∙ update_self vm.entries q (some (rested e)),
          record { user = c.user; present = c.present; readable = c.readable },
        )
    | inr n ↦ (f, update_ne vm.entries q (some (rested e)) p (ground arith) ∙ h, d)
  ]

  pub passed-IsPending : IsPending passed x
  passed-IsPending = record {
    sane =
        mark-IsSane (moved i vm) q e (rested e) here rested_alike (moved-IsSane vm i s.sane)
          (IsClear-usable e c) not_hidden;
    range = s.range;
    clear = let (f, h, d) = s.clear in passed_entry x f h d;
    outside = s.outside;
    placed = λ j lt ne.
        let old = s.placed j lt ne in
        let (f, h, d) = old.entry in
        record {
          address = old.address;
          range = old.range;
          entry = passed_entry (vm.queue j).pte f h d;
        };
    once = s.once;
    covered = λ p f h d. elim (entry_cases vm q p (rested e) f h) [
      | inl (a, b) ↦ s.covered p e (ap vm.entries a ∙ here) c
      | inr (a, b) ↦ s.covered p f b d
    ];
  }

  pub passed-SameView : SameView vm passed
  passed-SameView = SameView-trans vm (moved i vm) passed (moved-SameView i vm) (
      mark-SameView (moved i vm) q e (rested e) here rested_alike (moved-IsSane vm i s.sane)
        (IsClear-usable e c) not_hidden refl)

-- The hand stops at a page that was not used, and encrypts it.
module _ (vm : Vm) (x i : ℕ) (e : Pte) (s : IsPending vm x) (lt : i < clocksize)
    (here : vm.entries (vm.queue i).pte ≡ some e) (c : IsClear e)
    (busy : (vm.queue i).vpn ≢ no_page) where
  abbrev page : ℕ
  page = (vm.queue i).pte

  abbrev pub evicted : Vm
  evicted = flip_frame e.frame (set_entry page (hidden e) (moved i vm))

  at_page : (vm.queue i).vpn ≡ page * 4096
  at_page = (s.placed i lt busy).address

  other_node : (j : ℕ) → j < clocksize → j ≢ i → (vm.queue j).vpn ≢ page * 4096
  other_node j lj ne same = ne (sym (s.once i j lt lj busy (at_page ∙ sym same)))

  not_x : x ≢ page
  not_x eq = s.outside i lt (at_page ∙ ap (λ p. p * 4096) (sym eq))

  hidden_alike : SamePage e (hidden e)
  hidden_alike = record {
    frame = refl;
    user = refl;
    writable = refl;
    mapped = let u = c.user in let m = IsClear-usable e c in ground arith;
  }

  unchanged : (p : ℕ) (o : Option Pte) → p ≢ page → vm.entries p ≡ o → evicted.entries p ≡ o
  unchanged p o ne h = update_ne vm.entries page (some (hidden e)) p ne ∙ h

  pub evicted-IsFreed : IsFreed evicted x i
  unfolding InQueue
  evicted-IsFreed = record {
    sane =
        toggle-IsSane (moved i vm) page e (hidden e) here hidden_alike (moved-IsSane vm i s.sane)
          (IsClear-usable e c) (λ h. refl);
    range = s.range;
    slot = lt;
    clear = let (f, h, d) = s.clear in (f, unchanged x (some f) not_x h, d);
    outside = s.outside;
    placed = λ j lj ne full.
        let old = s.placed j lj full in
        let (f, h, d) = old.entry in
        let elsewhere : (vm.queue j).pte ≢ page =
          λ eq. other_node j lj ne (old.address ∙ ap (λ p. p * 4096) eq) in
        record {
          address = old.address;
          range = old.range;
          entry = (f, unchanged (vm.queue j).pte (some f) elsewhere h, d);
        };
    once = s.once;
    covered = λ p f h d. elim (entry_cases vm page p (hidden e) f h) [
      | inl (a, b) ↦ absurd (let r = d.readable in let r' = ap (λ (t : Pte). t.encrypted) b in cc)
      | inr (a, b) ↦ elim (s.covered p f b d) [
        | inl is_x ↦ inl is_x
        | inr (j, lj, at_p) ↦ inr (
          j,
          lj,
          (λ eq. a (let k = ap (λ l. (vm.queue l).vpn) eq in let l = at_page in omega arith)),
          at_p,
        )
      ]
    ];
  }

  pub evicted-SameView : SameView vm evicted
  evicted-SameView =
      let r = c.readable in
      SameView-trans vm (moved i vm) evicted (moved-SameView i vm) (
        toggle-SameView (moved i vm) page e (hidden e) here hidden_alike (moved-IsSane vm i s.sane)
          (IsClear-usable e c) (λ h. refl) (ground arith))

  pub evicts : mencrypt (vm.queue i).vpn 1 (moved i vm) ≡ some (true, evicted)
  unfolding mencrypt encrypt_pages
  evicts =
      let range = (s.placed i lt busy).range in
      let number : ((vm.queue i).vpn / 4096) % 1048576 ≡ page = let a = at_page in omega arith in
      let one : encrypt_page (((vm.queue i).vpn / 4096) % 1048576) (moved i vm) ≡ some evicted =
        ap (λ n. encrypt_page n (moved i vm)) number ∙ encrypts (moved i vm) page e here c in
      rw one refl
