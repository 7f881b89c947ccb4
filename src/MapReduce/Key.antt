-- ===== src/MapReduce/Key.antt =====
-- C strings as keys: the bytes before the NUL, and `strcmp`.
use compsci537_introduction.Common.{
  ℕ, ◌≡◌, refl, ◌↔◌, Bool, true, false, List, [], ◌∷◌, ◌&&◌, ◌==◌, arith,
}

abbrev pub Key : Type 0
Key = List ℕ

-- `strcmp(a, b) == 0`
unfoldable pub key_eq : Key → Key → Bool
key_eq [] [] = true
key_eq (a ∷ as') (b ∷ bs) = (a == b) && key_eq as' bs
key_eq _ _ = false

pub key_eq→≡ : (a b : Key) → key_eq a b ≡ true → a ≡ b
unfolding key_eq
key_eq→≡ [] [] h = refl
key_eq→≡ [] (b ∷ bs) h = cc
key_eq→≡ (a ∷ as') [] h = cc
key_eq→≡ (a ∷ as') (b ∷ bs) h = ground (arith, key_eq→≡ as' bs)

pub key_eq_refl : (a : Key) → key_eq a a ≡ true
unfolding key_eq
key_eq_refl [] = refl
key_eq_refl (a ∷ as') = ground (arith, key_eq_refl as')

pub key_eq_iff : (a b : Key) → (key_eq a b ≡ true) ↔ (a ≡ b)
key_eq_iff a b = (key_eq→≡ a b, λ e. ground (arith, key_eq_refl a))
