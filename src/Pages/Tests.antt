-- ===== src/Pages/Tests.antt =====
-- P2A: Scheduling/kalloc.c at a concrete range of memory.
use compsci537_introduction.Common.{ℕ, ◌≡◌, true, some, List, [], ◌∷◌, arith}
use compsci537_introduction.Pages.{Kmem, is_page, free_pages, kalloc}
use compsci537_introduction.Pages.Free.{
  Holds, NotIn, empty-Holds, kalloc_lem, pages_from, free_pages_lem,
}

-- The end of a kernel image, and a page behind it.
abbrev image_end : ℕ
image_end = 2148000000

abbrev a_page : ℕ
a_page = 2148302848

abbrev nothing_free : Kmem
nothing_free = record { freelist = 0; next = λ a. 0 }

nothing_free-Holds : Holds image_end nothing_free []
nothing_free-Holds = empty-Holds image_end (λ a. 0)

abbrev one_free : Kmem
one_free = record { freelist = a_page; next = λ a. 0 }

kalloc_lem_example :
    (Holds image_end one_free [] → kalloc one_free ≡ (0, one_free))
    × ((v : ℕ) (ps : List ℕ)
        → Holds image_end one_free (v ∷ ps)
        → (k' : Kmem) × (kalloc one_free ≡ (v, k'))
          × Holds image_end k' ps
          × NotIn v ps
          × (is_page image_end v ≡ true))
kalloc_lem_example = kalloc_lem image_end one_free

free_pages_lem_example :
    (k' : Kmem) × (free_pages image_end 3 a_page 2148311045 nothing_free ≡ some (some k'))
    × Holds image_end k' (pages_from a_page 2 [])
free_pages_lem_example =
    free_pages_lem image_end 2 a_page 2148311045 3 nothing_free [] nothing_free-Holds _
      (omega arith) (omega arith) (omega arith) (omega arith) (omega arith) (omega arith)
      (omega arith)
