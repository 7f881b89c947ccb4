-- ===== src/Encrypt/Tests.antt =====
-- P4: xv6 Memory Encryption/vm.c at a concrete memory.
use compsci537_introduction.Common.{
  ℕ, ◌/◌, ◌≡◌, refl, sym, ap, ◌∙◌, inl, inr, ◌⊎◌, true, false, some, [], ◌∷◌, arith,
}
use mathlib.Core.Option.{some-injective}
use compsci537_introduction.Common.Maps.{update}
use compsci537_introduction.Encrypt.{Pte, Vm, no_page, getpgtable, row}
use compsci537_introduction.Encrypt.View.{is_usable, IsSane, entry_cases}
use compsci537_introduction.Encrypt.WorkingSet.{IsWorkingSet}
use compsci537_introduction.Encrypt.WorkingSet.Pass.{IsClear-usable}
use compsci537_introduction.Encrypt.Fault.{Handled, page_fault}

-- An entry that maps nothing.
abbrev zero_entry : Pte
zero_entry = record {
  frame = 0;
  present = false;
  writable = false;
  user = false;
  encrypted = false;
  accessed = false;
}

-- The kernel's entry for the frame 7.
abbrev kernel_entry : Pte
kernel_entry = record zero_entry { frame = 7; present = true; writable = true }

abbrev hidden_entry : Pte
hidden_entry = record zero_entry { frame = 7; writable = true; user = true; encrypted = true }

abbrev no_pages : Vm
no_pages = record {
  entries = λ p. some zero_entry;
  frames = λ f. 255 ∷ 190 ∷ [];
  queue = λ i. record { vpn = no_page; pte = 0 };
  clock_index = no_page;
}

-- The kernel's mapping from 0x80000000 on, as far as it is used here.
abbrev kernel_pages : Vm
kernel_pages = record no_pages { entries = update no_pages.entries 524295 (some kernel_entry) }

-- One page of the process, which is encrypted.
abbrev one_page : Vm
one_page = record kernel_pages { entries = update kernel_pages.entries 3 (some hidden_entry) }

-- The entries of the table.
one_page_cases :
    (p : ℕ) (e : Pte)
    → one_page.entries p ≡ some e
    → ((p ≡ 3) × (e ≡ hidden_entry)) ⊎ ((e ≡ kernel_entry) ⊎ (e ≡ zero_entry))
one_page_cases p e h = elim (entry_cases kernel_pages 3 p hidden_entry e h) [
  | inl at_page ↦ inl at_page
  | inr (a, b) ↦ elim (entry_cases no_pages 524295 p kernel_entry e b) [
    | inl (c, d) ↦ inr (inl d)
    | inr (c, d) ↦ inr (inr (sym (some-injective _ _ d)))
  ]
]

mapped_page :
    (p : ℕ) (e : Pte)
    → one_page.entries p ≡ some e
    → is_usable e ≡ true
    → (p ≡ 3) × (e ≡ hidden_entry)
mapped_page p e h m = elim (one_page_cases p e h) [
  | inl at_page ↦ at_page
  | inr (inl k) ↦ absurd (let u = ap is_usable k in cc)
  | inr (inr z) ↦ absurd (let u = ap is_usable z in cc)
]

one_page-IsSane : IsSane one_page
one_page-IsSane = record {
  bytes = λ f. (omega arith, (omega arith, _));
  own = λ p q e f h k me mf eq. (mapped_page p e h me).0 ∙ sym (mapped_page q f k mf).0;
  exclusive = λ p e h enc. elim (one_page_cases p e h) [
    | inl (a, b) ↦ ap (λ (t : Pte). t.present) b
    | inr (inl k) ↦ absurd (let u = ap (λ (t : Pte). t.encrypted) k in cc)
    | inr (inr z) ↦ ap (λ (t : Pte). t.present) z
  ];
}

one_page-IsWorkingSet : IsWorkingSet one_page
one_page-IsWorkingSet = record {
  sane = one_page-IsSane;
  hand = inl refl;
  placed = λ i lt full. absurd (full refl);
  once = λ i j li lj full same. absurd (full refl);
  covered = λ p e h c.
      let (at_page, is) = mapped_page p e h (IsClear-usable e c) in
      absurd (let r = c.readable in let k = ap (λ (t : Pte). t.encrypted) is in cc);
}

page_fault_example : Handled one_page 2 129 12345 (12345 / 4096)
unfolding update
page_fault_example =
    page_fault 0 129 12345 one_page hidden_entry one_page-IsWorkingSet (omega arith) refl refl refl
      (omega arith)

-- The table of a process with four pages, whose entries it has, lists page 3 first.
abbrev four_pages : Vm
four_pages = record one_page { entries = λ p. some hidden_entry }

table_test :
    getpgtable 12288 2 0 four_pages ≡ some (some (row 3 hidden_entry ∷ row 2 hidden_entry ∷ []))
unfolding getpgtable
table_test = refl
