-- ===== src/Strings/Text.antt =====
-- P2A: Scheduling/string.c: `memcmp`, `strlen`, `strncmp` and `safestrcpy` against the texts they read.
use compsci537_introduction.Common.{
  ℕ, zero, suc, ◌+◌, ◌<◌, ◌≤◌, ◌≡◌, ◌≢◌, refl, sym, ap, ◌∙◌, ◌⊎◌, inl, inr, ◌↔◌, true, false,
  Bool-cases, arith, leb, ◌==◌, if◌then◌else◌, List, [], ◌∷◌, some,
}
use compsci537_introduction.Common.Words.{sign_bit}
use compsci537_introduction.Strings.{Memory, store, memcmp, strncmp, strlen, copy_text, safestrcpy}
use compsci537_introduction.Strings.Move.{store_self, store_ne}

-- Every place holds a byte.
abbrev pub Bytes : Memory → Type 0
Bytes m = (a : ℕ) → m a < 256

memcmp_zero :
    (m : Memory) (s1 s2 n : ℕ)
    → Bytes m
    → memcmp m s1 s2 n ≡ 0
    → (i : ℕ) → i < n
    → m (s1 + i) ≡ m (s2 + i)
unfolding memcmp
memcmp_zero m s1 s2 zero b e i h = absurd (omega arith)
memcmp_zero m s1 s2 (suc n) b e zero h =
    let x = b s1 in
    let y = b s2 in
    let same : m s1 ≡ m s2 = ground arith in ap m (omega arith) ∙ same ∙ ap m (omega arith)
memcmp_zero m s1 s2 (suc n) b e (suc i) h =
    let x = b s1 in
    let y = b s2 in
    let rest : memcmp m (s1 + 1) (s2 + 1) n ≡ 0 = ground arith in
    ap m (omega arith)
    ∙ memcmp_zero m (s1 + 1) (s2 + 1) n b rest i (omega arith)
    ∙ ap m (omega arith)

memcmp_same :
    (m : Memory) (s1 s2 n : ℕ) → ((i : ℕ) → i < n → m (s1 + i) ≡ m (s2 + i)) → memcmp m s1 s2 n ≡ 0
unfolding memcmp
memcmp_same m s1 s2 zero h = refl
memcmp_same m s1 s2 (suc n) h =
    let first : m s1 ≡ m s2 = ap m (omega arith) ∙ h 0 (omega arith) ∙ ap m (omega arith) in
    let rest =
      memcmp_same m (s1 + 1) (s2 + 1) n
        (λ i l. ap m (omega arith) ∙ h (suc i) (omega arith) ∙ ap m (omega arith)) in
    ground arith

-- `memcmp` returns 0 exactly if the two areas hold the same bytes.
pub memcmp_lem :
    (m : Memory) (s1 s2 n : ℕ)
    → Bytes m
    → (memcmp m s1 s2 n ≡ 0) ↔ ((i : ℕ) → i < n → m (s1 + i) ≡ m (s2 + i))
memcmp_lem m s1 s2 n b = (memcmp_zero m s1 s2 n b, memcmp_same m s1 s2 n)

-- The bytes before the first NUL, at most `n` of them.
pub text : Memory → ℕ → ℕ → List ℕ
text m s zero = []
text m s (suc n) = let rest = text m (s + 1) n in if m s == 0 then [] else m s ∷ rest

-- `strncmp` returns 0 exactly if the texts of at most `n` bytes are the same.
pub strncmp_lem :
    (m : Memory) (p q n : ℕ) → Bytes m → (strncmp m p q n ≡ 0) ↔ (text m p n ≡ text m q n)
unfolding strncmp text
strncmp_lem m p q zero b = (λ e. refl, λ e. refl)
strncmp_lem m p q (suc n) b =
    let x = b p in
    let y = b q in
    let rest = strncmp_lem m (p + 1) (q + 1) n b in
    ((λ e. ground (arith, rest.0)), (λ e. ground (arith, rest.1)))

text_agree :
    (m k : Memory) (s n : ℕ) → ((i : ℕ) → i < n → m (s + i) ≡ k (s + i)) → text m s n ≡ text k s n
unfolding text
text_agree m k s zero h = refl
text_agree m k s (suc n) h =
    let first : m s ≡ k s = ap m (omega arith) ∙ h 0 (omega arith) ∙ ap k (omega arith) in
    let rest =
      text_agree m k (s + 1) n
        (λ i l. ap m (omega arith) ∙ h (suc i) (omega arith) ∙ ap k (omega arith)) in
    rw (first, rest) refl

copy_text_outside : (m : Memory) (s t n a : ℕ) → (a < s) ⊎ (s + n < a) → copy_text m s t n a ≡ m a
unfolding copy_text
copy_text_outside m s t zero a h = store_ne m s 0 a (ground arith)
copy_text_outside m s t (suc n) a h = elim (Bool-cases (m t == 0)) [
  | inl y ↦
      rw y (store_ne (store m s 0) (s + 1) 0 a (ground arith) ∙ store_ne m s 0 a (ground arith))
  | inr k ↦ rw k (
      copy_text_outside (store m s (m t)) (s + 1) (t + 1) n a (ground arith)
      ∙ store_ne m s (m t) a (ground arith))
]

-- The text starts with the byte there.
text_cons : (m : Memory) (s n v : ℕ) → m s ≡ v → v ≢ 0 → text m s (suc n) ≡ v ∷ text m (s + 1) n
unfolding text
text_cons m s n v e h = ground arith

text_nil : (m : Memory) (s n : ℕ) → m s ≡ 0 → text m s (suc n) ≡ []
unfolding text
text_nil m s n e = rw e refl

text_zero : (m : Memory) (s : ℕ) → [] ≡ text m s 0
unfolding text
text_zero m s = refl

copy_text_nul :
    (m : Memory) (s t n : ℕ)
    → (m t == 0) ≡ true
    → copy_text m s t (suc n) ≡ store (store m s 0) (s + 1) 0
unfolding copy_text
copy_text_nul m s t n y = rw y refl

copy_text_byte :
    (m : Memory) (s t n : ℕ)
    → (m t == 0) ≡ false
    → copy_text m s t (suc n) ≡ copy_text (store m s (m t)) (s + 1) (t + 1) n
unfolding copy_text
copy_text_byte m s t n k = rw k refl

text-copy_text :
    (m : Memory) (s t n : ℕ)
    → (s + n < t) ⊎ (t + n ≤ s)
    → text (copy_text m s t n) s (suc n) ≡ text m t n
unfolding copy_text
text-copy_text m s t zero apart = text_nil (store m s 0) s 0 (store_self m s 0) ∙ text_zero m t
text-copy_text m s t (suc n) apart = elim (Bool-cases (m t == 0)) [
  | inl y ↦
      let ended : store (store m s 0) (s + 1) 0 s ≡ 0 =
        store_ne (store m s 0) (s + 1) 0 s (omega arith) ∙ store_self m s 0 in
      ap (λ k. text k s (suc (suc n))) (copy_text_nul m s t n y)
      ∙ (text_nil (store (store m s 0) (s + 1) 0) s (suc n) ended
          ∙ sym (text_nil m t n (ground arith)))
  | inr k ↦
      let stored = store m s (m t) in
      let first : copy_text stored (s + 1) (t + 1) n s ≡ m t =
        copy_text_outside stored (s + 1) (t + 1) n s (inl (omega arith)) ∙ store_self m s (m t) in
      let rest =
        text-copy_text stored (s + 1) (t + 1) n (ground arith)
        ∙ text_agree stored m (t + 1) n (λ i l. store_ne m s (m t) (t + 1 + i) (ground arith)) in
      ap (λ k. text k s (suc (suc n))) (copy_text_byte m s t n k)
      ∙ (text_cons (copy_text stored (s + 1) (t + 1) n) s (suc n) (m t) first (ground arith)
          ∙ ap (λ bs. m t ∷ bs) rest
          ∙ sym (text_cons m t n (m t) refl (ground arith)))
]

-- `safestrcpy` between areas that do not overlap, with room for `n + 1` bytes: the text at `s` is then
-- the text at `t`, cut to `n` bytes, so it ends within the area, and no byte outside it changes.
pub safestrcpy_lem :
    (m : Memory) (s t n : ℕ)
    → n + 1 < sign_bit
    → (s + n < t) ⊎ (t + n ≤ s)
    → (text (safestrcpy m s t (suc n)) s (suc n) ≡ text m t n)
      × ((a : ℕ) → (a < s) ⊎ (s + n < a) → safestrcpy m s t (suc n) a ≡ m a)
unfolding safestrcpy
safestrcpy_lem m s t n small apart =
    let positive : leb sign_bit (suc n) ≡ false = ground arith in
    rw positive (text-copy_text m s t n apart, copy_text_outside m s t n)

-- `strlen` of a text whose first NUL is `k` bytes behind its start returns `k` when its loop may
-- run for more than `k` rounds.
pub strlen_lem :
    (fuel : ℕ) (m : Memory) (s n k : ℕ)
    → ((i : ℕ) → i < k → m (s + (n + i)) ≢ 0)
    → m (s + (n + k)) ≡ 0
    → k < fuel
    → strlen fuel m s n ≡ some (n + k)
unfolding strlen
strlen_lem zero m s n k before ends h = absurd (omega arith)
strlen_lem (suc fuel) m s n zero before ends h =
    let here : m (s + n) ≡ 0 = ap m (omega arith) ∙ ends in rw here (ap some (omega arith))
strlen_lem (suc fuel) m s n (suc k) before ends h =
    let first = before 0 (omega arith) in
    let same : m (s + (n + 0)) ≡ m (s + n) = ap m (omega arith) in
    let other : (m (s + n) == 0) ≡ false = ground arith in
    rw other (
      strlen_lem fuel m s (n + 1) k (λ i l e. before (suc i) (omega arith) (ap m (omega arith) ∙ e))
        (ap m (omega arith) ∙ ends) (omega arith)
      ∙ ap some (omega arith))
