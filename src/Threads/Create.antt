-- ===== src/Threads/Create.antt =====
-- P3B: xv6 Kernel threads/ulib.c: `thread_create` and `thread_join`. What malloc, clone and join
-- return are parameters.
use compsci537_introduction.Common.{
  ℕ, ◌+◌, ◌-◌, ◌*◌, ◌%◌, ◌≤◌, ◌<◌, ◌≡◌, ◌≢◌, refl, sym, ap, true, false, not, Option, none, some,
  List, [], ◌∷◌, ◌==◌, ==_iff, if◌then◌else◌, All, Bool-cases, inl, inr, arith,
}

-- `addressArray[i]` and `pidsArray[i]`
pub record Entry : Type 0 where
  pub address : ℕ
  pub pid : ℕ

abbrev pub Entries : Type 0
Entries = List Entry

abbrev pub page_bytes : ℕ
page_bytes = 4096

-- The page that `thread_create` takes from the block that malloc gave.
unfoldable pub stack_in : ℕ → ℕ
stack_in stack_addr =
    let extra_space = stack_addr % page_bytes in
    if not (extra_space == 0) then stack_addr + page_bytes - extra_space else stack_addr

-- The loop of `thread_create`.
unfoldable pub put_entry : ℕ → ℕ → Entries → Entries
put_entry address pid [] = []
put_entry address pid (e ∷ es) =
    let rest = put_entry address pid es in
    if e.address == 0 then record { address = address; pid = pid } ∷ es else e ∷ rest

-- `thread_create`, by what malloc returns and what clone returns for a stack: the pid, none for -1,
-- the entries, and the blocks that are freed.
unfoldable pub thread_create : ℕ → (ℕ → Option ℕ) → Entries → Option ℕ × Entries × List ℕ
thread_create stack_addr clone es =
    if stack_addr == 0 then (none, es, []) else elim (clone (stack_in stack_addr)) [
      | none ↦ (none, es, stack_addr ∷ [])
      | some child_pid ↦ (some child_pid, put_entry stack_addr child_pid es, [])
    ]

-- The loop of `thread_join`: the entries, and the blocks that are freed.
unfoldable pub take_entries : ℕ → Entries → Entries × List ℕ
take_entries child_pid [] = ([], [])
take_entries child_pid (e ∷ es) =
    let (es', freed) = take_entries child_pid es in
    if e.pid == child_pid
    then (record { address = 0; pid = 4294967295 } ∷ es', e.address ∷ freed)
    else (e ∷ es', freed)

-- `thread_join`, by what join returns.
unfoldable pub thread_join : Option ℕ → Entries → Option ℕ × Entries × List ℕ
thread_join none es = (none, es, [])
thread_join (some child_pid) es =
    let (es', freed) = take_entries child_pid es in (some child_pid, es', freed)

-- The blocks in use.
abbrev pub addresses : Entries → List ℕ
addresses [] = []
addresses (e ∷ es) = e.address ∷ addresses es

-- No entry is the thread's, and one is free.
abbrev pub Lacks : ℕ → Entries → Type 0
Lacks pid = All (λ (e : Entry). (e.pid == pid) ≡ false)

unfoldable pub HasRoom : Entries → Type 0
HasRoom [] = ⊥
HasRoom (e ∷ es) = elim (e.address == 0) [ true ↦ Unit | false ↦ HasRoom es ]

take_none : (pid : ℕ) (es : Entries) → Lacks pid es → take_entries pid es ≡ (es, [])
unfolding take_entries
take_none pid [] h = refl
take_none pid (e ∷ es) h = rw (h.0, take_none pid es h.1, take_entries) refl

take_hit :
    (pid : ℕ) (e : Entry) (es es' : Entries) (freed : List ℕ)
    → (e.pid == pid) ≡ true
    → take_entries pid es ≡ (es', freed)
    → take_entries pid (e ∷ es)
      ≡ (record { address = 0; pid = 4294967295 } ∷ es', e.address ∷ freed)
unfolding take_entries
take_hit pid e es es' freed h r = rw (h, r, take_entries) refl

take_miss :
    (pid : ℕ) (e : Entry) (es es' : Entries) (freed : List ℕ)
    → (e.pid == pid) ≡ false
    → take_entries pid es ≡ (es', freed)
    → take_entries pid (e ∷ es) ≡ (e ∷ es', freed)
unfolding take_entries
take_miss pid e es es' freed h r = rw (h, r, take_entries) refl

-- What `take_entries` makes of the entry that `put_entry` made.
take_entries-put_entry :
    (address pid : ℕ) (es : Entries)
    → Lacks pid es
    → HasRoom es
    → (es' : Entries) × (take_entries pid (put_entry address pid es) ≡ (es', address ∷ []))
      × (addresses es' ≡ addresses es)
unfolding HasRoom put_entry
take_entries-put_entry address pid [] h room = elim room [ ]
take_entries-put_entry address pid (e ∷ es) h room = elim (Bool-cases (e.address == 0)) [
  | inl free ↦
      let zero_address : 0 ≡ e.address = sym ((==_iff e.address 0).0 free) in
      let self : (pid == pid) ≡ true = ground arith in
      (
        record { address = 0; pid = 4294967295 } ∷ es,
        rw (free, put_entry)
            (take_hit pid (record { address = address; pid = pid }) es es [] self
              (take_none pid es h.1)),
        ap (λ a. a ∷ addresses es) zero_address,
      )
  | inr used ↦
      let (es', run, same) =
        take_entries-put_entry address pid es h.1 (rw (used, HasRoom) at room) in
      (
        e ∷ es',
        rw (used, put_entry)
            (take_miss pid e (put_entry address pid es) es' (address ∷ []) h.0 run),
        ap (λ r. e.address ∷ r) same,
      )
]

stack_place :
    (block : ℕ)
    → (stack_in block % page_bytes ≡ 0)
      × (block ≤ stack_in block)
      × (stack_in block + page_bytes ≤ block + 2 * page_bytes)
unfolding stack_in
stack_place block = elim (Bool-cases (block % page_bytes == 0)) [
  | inl y ↦ rw (y, stack_in) (ground arith, omega arith, omega arith)
  | inr n ↦ rw (n, stack_in) (omega arith, omega arith, omega arith)
]

-- A thread that `thread_create` makes has its stack in the block that malloc gave, at the start of a
-- page; `thread_join` of this thread frees this block and no other, and leaves the addresses of the
-- blocks as they were before, if malloc gives a block below 2^31, one of the 64 entries is free and
-- none has the thread's pid.
pub thread_create-thread_join :
    (block pid : ℕ) (clone : ℕ → Option ℕ) (es : Entries)
    → block ≢ 0
    → block < 2147483648
    → clone (stack_in block) ≡ some pid
    → Lacks pid es
    → HasRoom es
    → (es' es'' : Entries) × (thread_create block clone es ≡ (some pid, es', []))
      × (thread_join (some pid) es' ≡ (some pid, es'', block ∷ []))
      × (addresses es'' ≡ addresses es)
      × (stack_in block % page_bytes ≡ 0)
      × (block ≤ stack_in block)
      × (stack_in block + page_bytes ≤ block + 2 * page_bytes)
unfolding thread_create thread_join
thread_create-thread_join block pid clone es some_block small cloned lacks room =
    let (es'', run, same) = take_entries-put_entry block pid es lacks room in
    let given : (block == 0) ≡ false = ground arith in
    let (aligned, above, fits) = stack_place block in
    (
      put_entry block pid es,
      es'',
      rw (given, cloned, thread_create) refl,
      rw (run, thread_join) refl,
      same,
      aligned,
      above,
      fits,
    )
