-- ===== src/Encrypt/Fault.antt =====
-- P4: xv6 Memory Encryption/vm.c: `mdecrypt` of the page of a fault.
use compsci537_introduction.Common.{
  ℕ, suc, ◌*◌, ◌/◌, ◌<◌, ◌≡◌, ◌≢◌, refl, sym, ap, ◌∙◌, inl, inr, true, false, none, some, arith,
}
use compsci537_introduction.Common.Maps.{update_self, update_ne}
use compsci537_introduction.Encrypt.{
  Pte, Vm, is_mapped, clocksize, set_entry, flip_frame, decrypt_page, insert_loop, mdecrypt,
}
use compsci537_introduction.Encrypt.View.{
  is_usable, SamePage, SameView, SameView-trans, entry_cases, toggle-IsSane, toggle-SameView,
}
use compsci537_introduction.Encrypt.WorkingSet.{IsClear, IsWorkingSet, IsPending}
use compsci537_introduction.Encrypt.WorkingSet.Insert.{inserts}
use compsci537_introduction.Encrypt.WorkingSet.Pass.{uva2ka_mapped, IsClear-mapped}

-- The entry of a page once it is in the clear.
abbrev revealed : Pte → Pte
revealed e = record e { present = true; encrypted = false }

-- A page in the clear is not decrypted again.
pub decrypts_none :
    (vm : Vm) (p : ℕ) (e : Pte) → vm.entries p ≡ some e → IsClear e → decrypt_page p vm ≡ some none
unfolding decrypt_page
decrypts_none vm p e here c =
    rw (uva2ka_mapped vm p e here (IsClear-mapped e c), decrypt_page) (rw c.readable refl)

-- An encrypted page of the process.
module _ (vm : Vm) (p : ℕ) (e : Pte) (w : IsWorkingSet vm) (range : p < 1048576)
    (here : vm.entries p ≡ some e) (user : e.user ≡ true) (encrypted : e.encrypted ≡ true) where
  absent : e.present ≡ false
  absent = w.sane.exclusive p e here encrypted

  abbrev decrypted : Vm
  decrypted = set_entry p (revealed e) (flip_frame e.frame vm)

  decrypts : decrypt_page p vm ≡ some (some decrypted)
  unfolding decrypt_page
  decrypts =
      let mapped : is_mapped e ≡ true = ground arith in
      rw (uva2ka_mapped vm p e here mapped, decrypt_page) (rw (encrypted, absent) refl)

  alike : SamePage e (revealed e)
  alike = record { frame = refl; user = refl; writable = refl; mapped = ground arith }

  usable : is_usable e ≡ true
  usable = ground arith

  revealed-IsClear : IsClear (revealed e)
  revealed-IsClear = record { user = user; present = refl; readable = refl }

  not_queued : (i : ℕ) → i < clocksize → (vm.queue i).vpn ≢ p * 4096
  not_queued i lt at_p =
      let node = w.placed i lt (omega arith) in
      let (f, there, c) = node.entry in
      let same : (vm.queue i).pte ≡ p = let a = node.address in omega arith in
      let one : f ≡ e = let t = ap vm.entries same in cc in
      let r = c.readable in let k = ap (λ (x : Pte). x.encrypted) one in cc

  still : (q : ℕ) (f : Pte) → vm.entries q ≡ some f → IsClear f → decrypted.entries q ≡ some f
  still q f h c =
      update_ne vm.entries p (some (revealed e)) q (λ eq.
        let one : f ≡ e = let t = ap vm.entries eq in cc in
        let r = c.readable in let k = ap (λ (x : Pte). x.encrypted) one in cc)
      ∙ h

  decrypted-IsPending : IsPending decrypted p
  decrypted-IsPending = record {
    sane = toggle-IsSane vm p e (revealed e) here alike w.sane usable (λ h. absurd (ground arith));
    range = range;
    clear = (revealed e, update_self vm.entries p (some (revealed e)), revealed-IsClear);
    outside = not_queued;
    placed = λ j lt full.
        let old = w.placed j lt full in
        let (f, h, d) = old.entry in
        record {
          address = old.address;
          range = old.range;
          entry = (f, still (vm.queue j).pte f h d, d);
        };
    once = w.once;
    covered = λ q f h d. elim (entry_cases vm p q (revealed e) f h) [
      | inl (a, b) ↦ inl a
      | inr (a, b) ↦ inr (w.covered q f b d)
    ];
  }

  decrypted-SameView : SameView vm decrypted
  decrypted-SameView =
      toggle-SameView vm p e (revealed e) here alike w.sane usable (λ h. absurd (ground arith))
        (ground arith)

-- The page at the hand is in the clear.
hand-IsClear :
    (vm : Vm) (p : ℕ)
    → IsWorkingSet vm
    → p < 1048576
    → vm.clock_index < clocksize
    → (vm.queue vm.clock_index).vpn ≡ p * 4096
    → (e : Pte) × (vm.entries p ≡ some e) × IsClear e
hand-IsClear vm p w range lt top =
    let node = w.placed vm.clock_index lt (omega arith) in
    let (e, h, c) = node.entry in
    let same : (vm.queue vm.clock_index).pte ≡ p = let a = node.address in omega arith in
    (e, ap vm.entries (sym same) ∙ h, c)

-- `mdecrypt` when `insertQueue` ends and its own call of `mdecrypt` finds the page in the clear.
mdecrypts :
    (fuel rounds a : ℕ) (vm vm' vm'' : Vm)
    → decrypt_page (a / 4096) vm ≡ some (some vm')
    → insert_loop rounds (record { vpn = a / 4096 * 4096; pte = a / 4096 }) vm' ≡ some vm''
    → decrypt_page (a / 4096) vm'' ≡ some none
    → mdecrypt (suc (suc fuel)) rounds a vm ≡ some (true, vm'')
unfolding mdecrypt
mdecrypts fuel rounds a vm vm' vm'' first inserted again =
    let back : a / 4096 * 4096 / 4096 ≡ a / 4096 = omega arith in
    rw (first, mdecrypt) (rw inserted (rw (back, mdecrypt) (rw again refl)))

-- What a page fault leaves: the working set with the page in it, and the memory the process had.
abbrev pub Handled : Vm → ℕ → ℕ → ℕ → ℕ → Type 0
Handled vm fuel rounds a p =
    (vm' : Vm) × (mdecrypt fuel rounds a vm ≡ some (true, vm'))
    × IsWorkingSet vm'
    × SameView vm vm'
    × ((e : Pte) × (vm'.entries p ≡ some e) × IsClear e)

-- `mdecrypt` of an address in an encrypted page of the process, while the pages in the clear are just
-- those in the clock queue, ends within two calls of itself and 129 rounds of the clock and returns 0:
-- the page is in the clear, the pages in the clear are again just those in the clock queue, and the
-- process sees in every page that it may use the bytes it had.
pub page_fault :
    (fuel rounds a : ℕ) (vm : Vm) (e : Pte)
    → IsWorkingSet vm
    → a < 4294967296
    → vm.entries (a / 4096) ≡ some e
    → e.user ≡ true
    → e.encrypted ≡ true
    → 128 < rounds
    → Handled vm (suc (suc fuel)) rounds a (a / 4096)
page_fault fuel rounds a vm e w lt here user encrypted enough =
    let p = a / 4096 in
    let range : p < 1048576 = omega arith in
    let pending = decrypted-IsPending vm p e w range here user encrypted in
    let (vm', f, w', v, at_hand, top) =
      inserts p rounds (decrypted vm p e w range here user encrypted) enough pending in
    let (g, there, c) = hand-IsClear vm' p w' range at_hand top in
    (
      vm',
      mdecrypts fuel rounds a vm _ vm' (decrypts vm p e w range here user encrypted) f
          (decrypts_none vm' p g there c),
      w',
      SameView-trans vm _ vm' (decrypted-SameView vm p e w range here user encrypted) v,
      (g, there, c),
    )
