-- ===== src/Pages.antt =====
-- P2A: Scheduling/kalloc.c: the allocator of physical pages. A call runs under the allocator's lock,
-- as one step.
pub mod Free
pub mod Tests
use compsci537_introduction.Common.{
  ℕ, zero, suc, ◌+◌, ◌-◌, ◌*◌, ◌/◌, ◌%◌, ◌≤◌, ◌<◌, ◌≡◌, ◌≢◌, refl, sym, ap, ◌∙◌, Bool, true, false,
  Option, none, some, List, [], ◌∷◌, ltb, leb, ◌==◌, ◌||◌, not, if◌then◌else◌, All, arith,
}
use compsci537_introduction.Common.Words.{u32}

abbrev pub pgsize : ℕ
pgsize = 4096

-- `V2P(v)`: KERNBASE is 0x80000000.
abbrev pub v2p : ℕ → ℕ
v2p v = u32 (v + 2147483648)

-- PHYSTOP, 0xE000000
abbrev pub phystop : ℕ
phystop = 234881024

-- `kmem`, with the `next` pointers in the free pages. The junk in a freed page is not kept.
pub record Kmem : Type 0 where
  pub freelist : ℕ
  pub next : ℕ → ℕ

module _ (end : ℕ) where
  -- The guard of `kfree`; `end` is where the kernel's image ends, which the linker decides.
  abbrev pub is_page : ℕ → Bool
  is_page v = not (not (v % pgsize == 0) || ltb v end || leb phystop (v2p v))

  -- `kfree`; none is the panic.
  unfoldable pub kfree : ℕ → Kmem → Option Kmem
  kfree v k =
      if is_page v
      then some (record { freelist = v; next = λ a. if a == v then k.freelist else k.next a })
      else none

  -- The loop of `freerange`; the outer none is a loop that has not ended within the fuel.
  unfoldable pub free_pages : ℕ → ℕ → ℕ → Kmem → Option (Option Kmem)
  unfolding kfree
  free_pages zero p vend k = none
  free_pages (suc fuel) p vend k =
      if leb (p + pgsize) vend
      then elim (kfree p k) [ none ↦ some none | some k' ↦ free_pages fuel (p + pgsize) vend k' ]
      else some (some k)

-- `kalloc`
unfoldable pub kalloc : Kmem → ℕ × Kmem
kalloc k =
    if k.freelist == 0 then (0, k) else (k.freelist, record k { freelist = k.next k.freelist })
