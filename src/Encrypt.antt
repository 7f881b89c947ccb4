-- ===== src/Encrypt.antt =====
-- P4: xv6 Memory Encryption/vm.c: pages that are kept encrypted unless they are among the last ones
-- used, which a clock queue keeps track of. The header with the bits of a page-table entry is not
-- in the repository, so an entry is a record of its flags.
pub mod Flip
pub mod View
pub mod Fault
pub mod Range
mod Tests
pub mod WorkingSet
use compsci537_introduction.Common.{
  ℕ, zero, suc, ◌+◌, ◌-◌, ◌*◌, ◌/◌, ◌%◌, bit_xor, Bool, true, false, Option, none, some, List, [],
  ◌∷◌, map, ◌==◌, ltb, leb, ◌&&◌, ◌||◌, not, if◌then◌else◌,
}
use compsci537_introduction.Common.Maps.{update}
use compsci537_introduction.Common.Words.{u32, sign_bit}

-- CLOCKSIZE
abbrev pub clocksize : ℕ
clocksize = 128

abbrev pub pgsize : ℕ
pgsize = 4096

-- PTE_P, PTE_W, PTE_U, PTE_E, PTE_A and the physical page of a `pte_t`.
pub record Pte : Type 0 where
  pub frame : ℕ
  pub present : Bool
  pub writable : Bool
  pub user : Bool
  pub encrypted : Bool
  pub accessed : Bool

-- `node`. A `pte_t *` is the number of the page whose entry it points to.
pub record Node : Type 0 where
  pub vpn : ℕ
  pub pte : ℕ

-- `vpn` of an empty node, -1
abbrev pub no_page : ℕ
no_page = 4294967295

-- What the functions use of a process and of memory: the entries of its page table by page number,
-- none where there is no page table (an entry that maps nothing has no flags); physical pages by their number; the clock queue.
pub record Vm : Type 0 where
  pub entries : ℕ → Option Pte
  pub frames : ℕ → List ℕ
  pub queue : ℕ → Node
  pub clock_index : ℕ

-- `x ^= 0xFF` at each byte of a page
abbrev pub flip : List ℕ → List ℕ
flip = map (λ b. bit_xor b 255)

-- Writes through a `pte_t *`.
abbrev pub set_entry : ℕ → Pte → Vm → Vm
set_entry page e vm = record vm { entries = update vm.entries page (some e) }

-- The loop that flips the page at `kernelAddr`.
abbrev pub flip_frame : ℕ → Vm → Vm
flip_frame frame vm = record vm { frames = update vm.frames frame (flip (vm.frames frame)) }

-- `uva2ka(...) != 0`
abbrev pub is_mapped : Pte → Bool
is_mapped e = (e.present || e.encrypted) && e.user

-- `uva2ka` of a page: the entry when it gives an address. The outer none is a null `pte`, which the
-- code reads through.
unfoldable pub uva2ka : ℕ → Vm → Option (Option Pte)
uva2ka page vm = elim (vm.entries page) [
  | none ↦ none
  | some e ↦ some (if is_mapped e then some e else none)
]

-- One page of the loop in `mencrypt`.
unfoldable pub encrypt_page : ℕ → Vm → Option Vm
unfolding uva2ka
encrypt_page page vm = elim (uva2ka page vm) [
  | none ↦ none
  | some none ↦ some vm
  | some (some e) ↦ some (
      if e.encrypted
      then vm
      else flip_frame e.frame (set_entry page (record e { present = false; encrypted = true }) vm))
]

-- The loop, over `n` pages from `page` on; addresses wrap around at 2^32.
unfoldable pub encrypt_pages : ℕ → ℕ → Vm → Option Vm
unfolding encrypt_page
encrypt_pages zero page vm = some vm
encrypt_pages (suc n) page vm = elim (encrypt_page (page % 1048576) vm) [
  | none ↦ none
  | some vm' ↦ encrypt_pages n (page + 1) vm'
]

-- `mencrypt` with an address and an `int`: whether it returns 0, and the memory.
unfoldable pub mencrypt : ℕ → ℕ → Vm → Option (Bool × Vm)
unfolding encrypt_pages
mencrypt virtual_addr len vm =
    if len == 0
    then some (true, vm)
    else if leb sign_bit len
    then some (false, vm)
    else elim (encrypt_pages len (virtual_addr / pgsize) vm) [
      | none ↦ none
      | some vm' ↦ some (true, vm')
    ]

-- `(currProc->clockIndex + 1) % CLOCKSIZE`
abbrev pub next_index : ℕ → ℕ
next_index i = u32 (i + 1) % clocksize

abbrev pub put_node : ℕ → Node → Vm → Vm
put_node i node vm = record vm { queue = update vm.queue i node }

-- The loop of `insertQueue`; the outer none is a null pointer or a loop that has not ended within
-- the fuel.
unfoldable pub insert_loop : ℕ → Node → Vm → Option Vm
insert_loop zero node vm = none
insert_loop (suc fuel) node vm =
    let i = next_index vm.clock_index in
    let moved = record vm { clock_index = i } in
    let here = vm.queue i in
    if here.vpn == no_page then some (put_node i node moved) else elim (vm.entries here.pte) [
      | none ↦ none
      | some e ↦ elim e.accessed [
        | false ↦ elim (mencrypt here.vpn 1 moved) [
          | none ↦ none
          | some (r, vm') ↦ some (put_node i node vm')
        ]
        | true ↦ insert_loop fuel node (set_entry here.pte (record e { accessed = false }) moved)
      ]
    ]

-- What `mdecrypt` does before it calls `insertQueue`; none inside is its return of -1.
unfoldable pub decrypt_page : ℕ → Vm → Option (Option Vm)
unfolding uva2ka
decrypt_page page vm = elim (uva2ka page vm) [
  | none ↦ none
  | some none ↦ some none
  | some (some e) ↦ some (
      if e.encrypted && not e.present
      then some
          (set_entry page (record e { present = true; encrypted = false }) (flip_frame e.frame vm))
      else none)
]

-- `mdecrypt`, with `insertQueue`, which calls it again. The first fuel bounds these calls, the other
-- the rounds of the clock.
unfoldable pub mdecrypt : ℕ → ℕ → ℕ → Vm → Option (Bool × Vm)
mdecrypt zero rounds virtual_addr vm = none
mdecrypt (suc fuel) rounds virtual_addr vm =
    let page = virtual_addr / pgsize in
    elim (decrypt_page page vm) [
      | none ↦ none
      | some none ↦ some (false, vm)
      | some (some vm') ↦
          elim (insert_loop rounds (record { vpn = page * pgsize; pte = page }) vm') [
            | none ↦ none
            | some vm'' ↦ elim (mdecrypt fuel rounds (page * pgsize) vm'') [
              | none ↦ none
              | some (r, vm''') ↦ some (true, vm''')
            ]
          ]
    ]

-- `removeQueue`: the search for the node, over `n` nodes from `i` behind the clock's hand on.
unfoldable pub find_node : ℕ → ℕ → ℕ → Vm → Option ℕ
find_node vpn zero i vm = none
find_node vpn (suc n) i vm =
    let rest = find_node vpn n (i + 1) vm in
    let index = (vm.clock_index + i) % clocksize in
    if (vm.queue index).vpn == vpn then some index else rest

-- The loop that moves nodes down, from `i` up to `start`.
unfoldable pub shift_nodes : ℕ → ℕ → ℕ → Vm → Option Vm
shift_nodes zero i start vm = none
shift_nodes (suc fuel) i start vm =
    let next = (i + 1) % clocksize in
    let rest = shift_nodes fuel next start (put_node i (vm.queue next) vm) in
    if i == start then some vm else rest

unfoldable pub remove_queue : ℕ → Vm → Option Vm
remove_queue vpn vm = elim (find_node vpn clocksize 0 vm) [
  | none ↦ some vm
  | some matched ↦ elim (mencrypt (vm.queue matched).vpn 1 vm) [
    | none ↦ none
    | some (r, vm') ↦ elim (shift_nodes clocksize matched vm.clock_index vm') [
      | none ↦ none
      | some vm'' ↦
          let start = vm.clock_index in
          some (record (put_node start (record (vm''.queue start) { vpn = no_page }) vm'') {
            clock_index = if start == 0 then 127 else u32 (start + 4294967295);
          })
    ]
  ]
]

-- `struct pt_entry`, of bits.
pub record PtEntry : Type 0 where
  pub pdx : ℕ
  pub ptx : ℕ
  pub ppage : ℕ
  pub present : Bool
  pub writable : Bool
  pub user : Bool
  pub encrypted : Bool
  pub ref : Bool

abbrev pub row : ℕ → Pte → PtEntry
row page e = record {
  pdx = page / 1024;
  ptx = page % 1024;
  ppage = e.frame;
  present = e.present;
  writable = e.writable;
  user = e.user;
  encrypted = e.encrypted;
  ref = e.accessed;
}

-- The tests of `getpgtable`, by `wsetOnly`.
abbrev pub is_wanted : Bool → Pte → Bool
is_wanted false e = e.encrypted || e.present
is_wanted true e = not e.encrypted && e.present

-- The loop of `getpgtable` over `n` pages down from `page`, for at most `num` entries; none is a
-- null `pte`, which the code reads through.
unfoldable pub table_loop : Bool → ℕ → ℕ → ℕ → Vm → Option (List PtEntry)
table_loop wset_only zero num page vm = some []
table_loop wset_only (suc n) zero page vm = some []
table_loop wset_only (suc n) (suc num) page vm = elim (vm.entries page) [
  | none ↦ none
  | some e ↦ elim (is_wanted wset_only e) [
    | false ↦ table_loop wset_only n (suc num) (page - 1) vm
    | true ↦ elim (table_loop wset_only n num (page - 1) vm) [
      | none ↦ none
      | some rows ↦ some (row page e ∷ rows)
    ]
  ]
]

-- `getpgtable` of a process of size `sz`, into an array that is given: the entries filled in, or -1.
unfoldable pub getpgtable : ℕ → ℕ → ℕ → Vm → Option (Option (List PtEntry))
unfolding table_loop
getpgtable sz num wset_only vm =
    if not (wset_only == 0) && not (wset_only == 1)
    then some none
    else elim (table_loop (wset_only == 1) (sz / pgsize) (if leb sign_bit num then 0 else num)
        (sz / pgsize) vm) [ none ↦ none | some rows ↦ some (some rows) ]
