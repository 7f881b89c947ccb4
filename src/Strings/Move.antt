-- ===== src/Strings/Move.antt =====
-- P2A: Scheduling/string.c: `memmove`.
use compsci537_introduction.Common.{
  ℕ, zero, suc, ◌+◌, ◌<◌, ◌≤◌, ◌≡◌, ◌≢◌, refl, sym, ap, ◌∙◌, ◌⊎◌, inl, inr, Bool-cases, arith, ltb,
  ◌&&◌,
}
use compsci537_introduction.Strings.{Memory, store, copy_up, copy_down, memmove}

pub store_self : (m : Memory) (a v : ℕ) → store m a v a ≡ v
unfolding store
store_self m a v = ground arith

pub store_ne : (m : Memory) (a v b : ℕ) → b ≢ a → store m a v b ≡ m b
unfolding store
store_ne m a v b h = ground arith

copy_up_outside : (m : Memory) (d s n a : ℕ) → (a < d) ⊎ (d + n ≤ a) → copy_up m d s n a ≡ m a
unfolding copy_up
copy_up_outside m d s zero a h = refl
copy_up_outside m d s (suc n) a h =
    copy_up_outside (store m d (m s)) (d + 1) (s + 1) n a (ground arith)
    ∙ store_ne m d (m s) a (ground arith)

copy_up_inside :
    (m : Memory) (d s n i : ℕ) → i < n → (d ≤ s) ⊎ (s + n ≤ d) → copy_up m d s n (d + i) ≡ m (s + i)
unfolding copy_up
copy_up_inside m d s zero i h apart = absurd (omega arith)
copy_up_inside m d s (suc n) zero h apart =
    copy_up_outside (store m d (m s)) (d + 1) (s + 1) n (d + 0) (inl (omega arith))
    ∙ ap (store m d (m s)) (omega arith)
    ∙ store_self m d (m s)
    ∙ ap m (omega arith)
copy_up_inside m d s (suc n) (suc i) h apart =
    let to : d + suc i ≡ d + 1 + i = omega arith in
    let from : s + 1 + i ≡ s + suc i = omega arith in
    ap (copy_up (store m d (m s)) (d + 1) (s + 1) n) to
    ∙ copy_up_inside (store m d (m s)) (d + 1) (s + 1) n i (omega arith) (ground arith)
    ∙ store_ne m d (m s) (s + 1 + i) (ground arith)
    ∙ ap m from

copy_down_outside : (m : Memory) (d s n a : ℕ) → (a < d) ⊎ (d + n ≤ a) → copy_down m d s n a ≡ m a
unfolding copy_down
copy_down_outside m d s zero a h = refl
copy_down_outside m d s (suc n) a h =
    copy_down_outside (store m (d + n) (m (s + n))) d s n a (ground arith)
    ∙ store_ne m (d + n) (m (s + n)) a (ground arith)

copy_down_inside :
    (m : Memory) (d s n i : ℕ) → i < n → s < d → copy_down m d s n (d + i) ≡ m (s + i)
unfolding copy_down
copy_down_inside m d s zero i h below = absurd (omega arith)
copy_down_inside m d s (suc n) i h below = elim (Bool-cases (ltb i n)) [
  | inl y ↦
      copy_down_inside (store m (d + n) (m (s + n))) d s n i (ground arith) below
      ∙ store_ne m (d + n) (m (s + n)) (s + i) (ground arith)
  | inr l ↦
      let last : i ≡ n = ground arith in
      copy_down_outside (store m (d + n) (m (s + n))) d s n (d + i) (inr (omega arith))
      ∙ ap (λ j. store m (d + n) (m (s + n)) (d + j)) last
      ∙ store_self m (d + n) (m (s + n))
      ∙ ap (λ j. m (s + j)) (sym last)
]

-- `memmove` copies the `n` bytes at `src`, as they were before, to `dst`, however the two areas
-- overlap, and changes no other byte.
pub memmove_lem :
    (m : Memory) (dst src n : ℕ)
    → ((i : ℕ) → i < n → memmove m dst src n (dst + i) ≡ m (src + i))
      × ((a : ℕ) → (a < dst) ⊎ (dst + n ≤ a) → memmove m dst src n a ≡ m a)
unfolding memmove
memmove_lem m dst src n = elim (Bool-cases (ltb src dst && ltb dst (src + n))) [
  | inl y ↦ rw y (
    (λ i h. copy_down_inside m dst src n i h (ground arith)),
    (λ a h. copy_down_outside m dst src n a h),
  )
  | inr k ↦ rw k (
    (λ i h. copy_up_inside m dst src n i h (ground arith)),
    (λ a h. copy_up_outside m dst src n a h),
  )
]
