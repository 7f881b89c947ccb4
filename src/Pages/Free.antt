-- ===== src/Pages/Free.antt =====
-- P2A: Scheduling/kalloc.c: the free list as a list of different pages.
use compsci537_introduction.Common.{
  ℕ, zero, suc, ◌+◌, ◌*◌, ◌%◌, ◌≤◌, ◌<◌, ◌≡◌, ◌≢◌, refl, ap, true, false, some, List, [], ◌∷◌, leb,
  ◌==◌, if◌then◌else◌, All, arith,
}
use compsci537_introduction.Pages.{pgsize, phystop, Kmem, is_page, kfree, free_pages, kalloc}

-- The free list from a page on.
pub Chain : (ℕ → ℕ) → ℕ → List ℕ → Type 0
Chain next p [] = p ≡ 0
Chain next p (q ∷ qs) = (p ≡ q) × (q ≢ 0) × Chain next (next q) qs

-- The pages are not on the list.
abbrev pub NotIn : ℕ → List ℕ → Type 0
NotIn v = All (λ q. q ≢ v)

-- Writing the pointer of a page that is not on a list leaves the list.
Chain-write :
    (next : ℕ → ℕ) (v w p : ℕ) (ps : List ℕ)
    → NotIn v ps
    → Chain next p ps
    → Chain (λ a. if a == v then w else next a) p ps
unfolding Chain
Chain-write next v w p [] h c = c
Chain-write next v w p (q ∷ qs) h c =
    let other : (q == v) ≡ false = let ne = h.0 in ground arith in
    (c.0, c.1, rw other (Chain-write next v w (next q) qs h.1 c.2))

abbrev pub AllDifferent : List ℕ → Type 0
AllDifferent [] = Unit
AllDifferent (q ∷ qs) = NotIn q qs × AllDifferent qs

-- The allocator holds these pages, each once, in this order.
pub record Holds (end : ℕ) (k : Kmem) (ps : List ℕ) : Type 0 where
  pub chain : Chain k.next k.freelist ps
  pub different : AllDifferent ps
  pub pages : All (λ p. is_page end p ≡ true) ps

pub empty-Holds : (end : ℕ) (next : ℕ → ℕ) → Holds end (record { freelist = 0; next = next }) []
unfolding Chain
empty-Holds end next = record { chain = refl; different = _; pages = _ }

is_page-positive : (end v : ℕ) → is_page end v ≡ true → v ≢ 0
is_page-positive end v page = ground arith

-- `kfree` of a page in the range of physical memory that the allocator does not hold succeeds, and
-- puts it in front of the free list.
pub kfree_lem :
    (end v : ℕ) (k : Kmem) (ps : List ℕ)
    → Holds end k ps
    → is_page end v ≡ true
    → NotIn v ps
    → (k' : Kmem) × (kfree end v k ≡ some k') × Holds end k' (v ∷ ps)
unfolding kfree Chain
kfree_lem end v k ps h page new =
    let self : (v == v) ≡ true = ground arith in
    (
      record { freelist = v; next = λ a. if a == v then k.freelist else k.next a },
      rw page refl,
      record {
        chain = (
          refl,
          is_page-positive end v page,
          rw self (Chain-write k.next v k.freelist k.freelist ps new h.chain),
        );
        different = (new, h.different);
        pages = (page, h.pages);
      },
    )

-- `kalloc` returns null and changes nothing when the allocator holds no page, and else takes the
-- first page off the free list, which the allocator then holds no more.
pub kalloc_lem :
    (end : ℕ) (k : Kmem)
    → (Holds end k [] → kalloc k ≡ (0, k))
      × ((v : ℕ) (ps : List ℕ)
          → Holds end k (v ∷ ps)
          → (k' : Kmem) × (kalloc k ≡ (v, k'))
            × Holds end k' ps
            × NotIn v ps
            × (is_page end v ≡ true))
unfolding kalloc Chain
kalloc_lem end k = (
  (λ h. let none_left = h.chain in rw none_left refl),
  (λ v ps h.
      let at_v = h.chain.0 in
      let some_page : (k.freelist == 0) ≡ false = let ne = h.chain.1 in ground arith in
      (
        record k { freelist = k.next k.freelist },
        rw some_page (ap (λ p. (p, record k { freelist = k.next k.freelist })) at_v),
        record { chain = rw at_v h.chain.2; different = h.different.1; pages = h.pages.1 },
        h.different.0,
        h.pages.0,
      )),
)

-- The pages that `freerange` adds, `n` of them from `p` on.
pub pages_from : ℕ → ℕ → List ℕ → List ℕ
pages_from p zero ps = ps
pages_from p (suc n) ps = pages_from (p + pgsize) n (p ∷ ps)

above : (p q : ℕ) (ps : List ℕ) → p ≤ q → All (λ x. x < p) ps → All (λ x. x < q) ps
above p q [] h a = _
above p q (x ∷ xs) h a = (omega (arith, a.0), above p q xs h a.1)

new_page : (p : ℕ) (ps : List ℕ) → All (λ x. x < p) ps → NotIn p ps
new_page p [] a = _
new_page p (x ∷ xs) a = (omega (arith, a.0), new_page p xs a.1)

-- The loop of `freerange` over `n` whole pages of physical memory, all behind those that the
-- allocator holds, ends without a panic, and the allocator then holds these pages too.
pub free_pages_lem :
    (end : ℕ) (n p vend fuel : ℕ) (k : Kmem) (ps : List ℕ)
    → Holds end k ps
    → All (λ q. q < p) ps
    → p % pgsize ≡ 0
    → end ≤ p
    → 2147483648 ≤ p
    → p + n * pgsize ≤ 2147483648 + phystop
    → p + n * pgsize ≤ vend
    → vend < p + n * pgsize + pgsize
    → n < fuel
    → (k' : Kmem) × (free_pages end fuel p vend k ≡ some (some k'))
      × Holds end k' (pages_from p n ps)
unfolding free_pages pages_from
free_pages_lem end n p vend zero k ps h below aligned image low high enough last more =
    absurd (omega arith)
free_pages_lem end zero p vend (suc fuel) k ps h below aligned image low high enough last more =
    let over : leb (p + pgsize) vend ≡ false = ground arith in (k, rw over refl, h)
free_pages_lem end (suc n) p vend (suc fuel) k ps h below aligned image low high enough last more =
    let within : leb (p + pgsize) vend ≡ true = ground arith in
    let page : is_page end p ≡ true = ground arith in
    let (k', e, h') = kfree_lem end p k ps h page (new_page p ps below) in
    let (k'', f, h'') =
      free_pages_lem end n (p + pgsize) vend fuel k' (p ∷ ps) h'
        (omega arith, above p (p + pgsize) ps (omega arith) below) (omega arith) (omega arith)
        (omega arith) (omega arith) (omega arith) (omega arith) (omega arith) in
    (k'', rw (within, e) f, h'')
