-- ===== src/Encrypt/Flip.antt =====
-- P4: xv6 Memory Encryption/vm.c: flipping the bits of a page twice gives it back.
use compsci537_introduction.Common.{
  ℕ, zero, suc, ◌+◌, ◌-◌, ◌<◌, ◌≡◌, refl, sym, ap, ◌∙◌, Bool, true, false, List, [], ◌∷◌, ◌==◌,
  ==_iff, ltb, ltb_iff, ◌&&◌, All, bit_xor, arith, Bool-cases, inl, inr,
}
use compsci537_introduction.Encrypt.{flip}

-- A byte is a byte again after `^= 0xFF`, and itself after the second time.
flips_back : ℕ → Bool
flips_back b = let flipped = bit_xor b 255 in ltb flipped 256 && (bit_xor flipped 255 == b)

-- The test at `count` bytes from `first` on.
unfoldable flip_tests : ℕ → ℕ → Bool
flip_tests first zero = true
flip_tests first (suc count) = elim (flips_back first) [
  | true ↦ flip_tests (first + 1) count
  | false ↦ false
]

flip_tests_at :
    (count first k : ℕ) → flip_tests first count ≡ true → k < count → flips_back (first + k) ≡ true
unfolding flip_tests
flip_tests_at zero first k passed inside = absurd (omega arith)
flip_tests_at (suc count) first k passed inside = elim (Bool-cases (flips_back first)) [
  | inr fails ↦ absurd (let wrong : false ≡ true = sym (rw (fails, flip_tests) refl) ∙ passed in cc)
  | inl holds ↦
      let others : flip_tests (first + 1) count ≡ true =
        sym (rw (holds, flip_tests) refl) ∙ passed in
      elim (Bool-cases (k == 0)) [
        | inl here ↦
            let at_first : first ≡ first + k = ground arith in ap flips_back (sym at_first) ∙ holds
        | inr later ↦
            let past : first + 1 + (k - 1) ≡ first + k = ground arith in
            ap flips_back (sym past) ∙ flip_tests_at count (first + 1) (k - 1) others (ground arith)
      ]
]

flips_back_byte : (b : ℕ) → b < 256 → flips_back b ≡ true
unfolding flip_tests flips_back
flips_back_byte b h =
    let start : 0 + b ≡ b = omega arith in ap flips_back (sym start) ∙ flip_tests_at 256 0 b refl h

xor_twice : (b : ℕ) → b < 256 → bit_xor (bit_xor b 255) 255 ≡ b
unfolding flips_back
xor_twice b h =
    let p = flips_back_byte b h in (==_iff (bit_xor (bit_xor b 255) 255) b).0 (ground arith)

xor-lt : (b : ℕ) → b < 256 → bit_xor b 255 < 256
unfolding flips_back
xor-lt b h = let p = flips_back_byte b h in (ltb_iff (bit_xor b 255) 256).0 (ground arith)

abbrev pub IsBytes : List ℕ → Type 0
IsBytes = All (λ b. b < 256)

pub flip_twice : (bs : List ℕ) → IsBytes bs → flip (flip bs) ≡ bs
flip_twice [] h = refl
flip_twice (b ∷ bs) h = cc (xor_twice b h.0, flip_twice bs h.1)

pub flip-IsBytes : (bs : List ℕ) → IsBytes bs → IsBytes (flip bs)
flip-IsBytes [] h = _
flip-IsBytes (b ∷ bs) h = (xor-lt b h.0, flip-IsBytes bs h.1)
