-- ===== src/Strings.antt =====
-- P2A: Scheduling/string.c: the kernel's memory and string routines, on a memory of bytes. Pointers
-- are addresses that do not pass the end of memory.
pub mod Move
pub mod Text
pub mod Tests
use compsci537_introduction.Common.{
  ℕ, zero, suc, ◌+◌, ◌-◌, Bool, true, false, Option, none, some, ltb, leb, ◌==◌, ◌&&◌, ◌||◌, not,
  if◌then◌else◌,
}
use compsci537_introduction.Common.Words.{u32, u32_mod, sign_bit}

abbrev pub Memory : Type 0
Memory = ℕ → ℕ

unfoldable pub store : Memory → ℕ → ℕ → Memory
store m at v a = if a == at then v else m a

-- `a - b` of two bytes as an `int`
abbrev pub difference : ℕ → ℕ → ℕ
difference a b = u32 (a + u32_mod - b)

unfoldable pub memcmp : Memory → ℕ → ℕ → ℕ → ℕ
memcmp m s1 s2 zero = 0
memcmp m s1 s2 (suc n) =
    let rest = memcmp m (s1 + 1) (s2 + 1) n in
    if not (m s1 == m s2) then difference (m s1) (m s2) else rest

-- `while(n-- > 0) *d++ = *s++;`
unfoldable pub copy_up : Memory → ℕ → ℕ → ℕ → Memory
unfolding store
copy_up m d s zero = m
copy_up m d s (suc n) = copy_up (store m d (m s)) (d + 1) (s + 1) n

-- `while(n-- > 0) *--d = *--s;`, from `n` bytes behind `d` and `s`
unfoldable pub copy_down : Memory → ℕ → ℕ → ℕ → Memory
unfolding store
copy_down m d s zero = m
copy_down m d s (suc n) = copy_down (store m (d + n) (m (s + n))) d s n

unfoldable pub memmove : Memory → ℕ → ℕ → ℕ → Memory
unfolding copy_up copy_down
memmove m dst src n =
    if ltb src dst && ltb dst (src + n) then copy_down m dst src n else copy_up m dst src n

unfoldable pub strncmp : Memory → ℕ → ℕ → ℕ → ℕ
strncmp m p q zero = 0
strncmp m p q (suc n) =
    let rest = strncmp m (p + 1) (q + 1) n in
    if not (m p == 0) && (m p == m q) then rest else difference (m p) (m q)

-- The loop of `safestrcpy` with `n` rounds left, and its last write.
unfoldable pub copy_text : Memory → ℕ → ℕ → ℕ → Memory
unfolding store
copy_text m s t zero = store m s 0
copy_text m s t (suc n) =
    let rest = copy_text (store m s (m t)) (s + 1) (t + 1) n in
    if m t == 0 then store (store m s 0) (s + 1) 0 else rest

-- `safestrcpy` with the `int` `n`.
unfoldable pub safestrcpy : Memory → ℕ → ℕ → ℕ → Memory
unfolding copy_text
safestrcpy m s t zero = m
safestrcpy m s t (suc n) = if leb sign_bit (suc n) then m else copy_text m s t n

-- The loop of `strlen`, from `n` on; none is a loop that has not ended within the fuel.
unfoldable pub strlen : ℕ → Memory → ℕ → ℕ → Option ℕ
strlen zero m s n = none
strlen (suc fuel) m s n =
    let rest = strlen fuel m s (n + 1) in if m (s + n) == 0 then some n else rest
