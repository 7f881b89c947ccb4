-- ===== src/Encrypt/Range.antt =====
-- P4: xv6 Memory Encryption/vm.c: `mencrypt` of a range of pages.
use compsci537_introduction.Common.{ℕ, ◌≡◌, true, false, some, arith}
use compsci537_introduction.Encrypt.{Pte, Vm, is_mapped, set_entry, flip_frame, encrypt_page}
use compsci537_introduction.Encrypt.View.{is_usable, IsSane, SameView}

-- The page is encrypted, and the process may use it.
abbrev pub Hidden : Vm → ℕ → Type 0
Hidden vm q = (e : Pte) × (vm.entries q ≡ some e) × (e.encrypted ≡ true) × (e.user ≡ true)

-- The process has the page, encrypted or not.
abbrev pub Usable : Vm → ℕ → Type 0
Usable vm q = (e : Pte) × (vm.entries q ≡ some e) × (is_usable e ≡ true)

abbrev pub HasEntry : Vm → ℕ → Type 0
HasEntry vm q = (e : Pte) × (vm.entries q ≡ some e)

-- What encrypting pages leaves as it was, where a usable page stays usable.
pub record Kept (vm vm' : Vm) : Type 0 where
  pub sane : IsSane vm'
  pub view : SameView vm vm'
  pub hidden : (q : ℕ) → Hidden vm q → Hidden vm' q
  pub usable : (q : ℕ) → Usable vm q → Usable vm' q

-- One page that is in the clear.
module _ (vm : Vm) (page : ℕ) (e : Pte) (s : IsSane vm) (here : vm.entries page ≡ some e)
    (mapped : is_mapped e ≡ true) (readable : e.encrypted ≡ false) where
  abbrev e' : Pte
  e' = record e { present = false; encrypted = true }

  abbrev after : Vm
  after = flip_frame e.frame (set_entry page e' vm)

  user : e.user ≡ true
  user = ground arith

-- What `encrypt_page` does to a page that has an entry.
abbrev Encrypted : Vm → ℕ → Type 0
Encrypted vm page =
    (vm' : Vm) × (encrypt_page page vm ≡ some vm')
    × Kept vm vm'
    × (Usable vm page → Hidden vm' page)
