-- ===== src/Utilities/Letters.antt =====
-- P1: UNIX Utilities/my-look.c: what `filter` keeps of a text, and which letters are the same whatever
-- the case.
use compsci537_introduction.Common.{
  ℕ, ◌+◌, ◌≤◌, ◌≡◌, ◌↔◌, ◌⊎◌, refl, sym, ap, ◌∙◌, inl, inr, Bool, true, false, ◌&&◌, ◌||◌, [], ◌∷◌,
  ◌++◌, ◌==◌, leb, arith, Bool-cases,
}
use mathlib.Core.Path.{subst}
use compsci537_introduction.Common.Streams.{Bytes}
use compsci537_introduction.Utilities.{
  is_upper, is_alpha, is_digit, lower, filter, is_prefix, is_match,
}

-- A letter or a digit of ASCII.
abbrev pub IsLetter : ℕ → Type 0
IsLetter c = ((48 ≤ c) × (c ≤ 57)) ⊎ (((65 ≤ c) × (c ≤ 90)) ⊎ ((97 ≤ c) × (c ≤ 122)))

-- `kept` is the text without the characters that are neither.
unfoldable pub Kept : Bytes → Bytes → Type 0
Kept [] kept = kept ≡ []
Kept (c ∷ cs) kept =
    (IsLetter c × ((rest : Bytes) × (kept ≡ c ∷ rest) × Kept cs rest))
    ⊎ ((¬ IsLetter c) × Kept cs kept)

-- The same character, or a capital and its small letter.
abbrev pub SameLetter : ℕ → ℕ → Type 0
SameLetter c d =
    (c ≡ d) ⊎ ((((65 ≤ c) × (c ≤ 90)) × (d ≡ c + 32)) ⊎ (((65 ≤ d) × (d ≤ 90)) × (c ≡ d + 32)))

unfoldable pub SameLetters : Bytes → Bytes → Type 0
SameLetters [] ds = ds ≡ []
SameLetters (c ∷ cs) ds =
    (d : ℕ) × (rest : Bytes) × (ds ≡ d ∷ rest) × SameLetter c d × SameLetters cs rest

-- A text starts with another, whatever the case.
abbrev pub StartsWith : Bytes → Bytes → Type 0
StartsWith prefix words =
    (first : Bytes) × (rest : Bytes) × (words ≡ first ++ rest) × SameLetters prefix first

-- The letters and digits of a line start with those of the prefix.
abbrev pub Matches : Bytes → Bytes → Type 0
Matches prefix l = (p : Bytes) × (w : Bytes) × Kept prefix p × Kept l w × StartsWith p w

alnum-IsLetter : (c : ℕ) → (is_alpha c || is_digit c) ≡ true → IsLetter c
alnum-IsLetter c h = elim (Bool-cases (is_digit c)) [
  | inl y ↦ inl (ground arith, ground arith)
  | inr n ↦ elim (Bool-cases (leb 65 c && leb c 90)) [
    | inl y ↦ inr (inl (ground arith, ground arith))
    | inr m ↦ inr (inr (ground arith, ground arith))
  ]
]

IsLetter-alnum : (c : ℕ) → IsLetter c → (is_alpha c || is_digit c) ≡ true
IsLetter-alnum c (inl (a, b)) = ground arith
IsLetter-alnum c (inr (inl (a, b))) = ground arith
IsLetter-alnum c (inr (inr (a, b))) = ground arith

pub filter-Kept : (l : Bytes) → Kept l (filter l)
unfolding Kept filter
filter-Kept [] = refl
filter-Kept (c ∷ cs) = elim (Bool-cases (is_alpha c || is_digit c)) [
  | inl y ↦ rw (y, filter) (inl (alnum-IsLetter c y, (filter cs, refl, filter-Kept cs)))
  | inr n ↦ rw (n, filter) (inr ((λ is. let y = IsLetter-alnum c is in cc), filter-Kept cs))
]

Kept-filter : (l kept : Bytes) → Kept l kept → kept ≡ filter l
unfolding Kept filter
Kept-filter [] kept h = h
Kept-filter (c ∷ cs) kept (inl (is, (rest, e, h))) =
    rw (IsLetter-alnum c is, filter) (e ∙ ap (λ r. c ∷ r) (Kept-filter cs rest h))
Kept-filter (c ∷ cs) kept (inr (other, h)) = elim (Bool-cases (is_alpha c || is_digit c)) [
  | inl y ↦ absurd (other (alnum-IsLetter c y))
  | inr n ↦ rw (n, filter) (Kept-filter cs kept h)
]

lower-SameLetter : (c d : ℕ) → (lower c == lower d) ≡ true → SameLetter c d
lower-SameLetter c d h = elim (Bool-cases (c == d)) [
  | inl y ↦ inl (ground arith)
  | inr n ↦ elim (Bool-cases (is_upper c)) [
    | inl y ↦ inr (inl ((ground arith, ground arith), ground arith))
    | inr m ↦ inr (inr ((ground arith, ground arith), ground arith))
  ]
]

SameLetter-lower : (c d : ℕ) → SameLetter c d → (lower c == lower d) ≡ true
SameLetter-lower c d (inl e) = ground arith
SameLetter-lower c d (inr (inl ((a, b), e))) = ground arith
SameLetter-lower c d (inr (inr ((a, b), e))) = ground arith

is_prefix-StartsWith : (p w : Bytes) → is_prefix p w ≡ true → StartsWith p w
unfolding is_prefix SameLetters
is_prefix-StartsWith [] w h = ([], w, refl, refl)
is_prefix-StartsWith (c ∷ cs) [] h = absurd (let k : false ≡ true = h in cc)
is_prefix-StartsWith (c ∷ cs) (d ∷ ds) h =
    let (letter, others) = both (lower c == lower d) (is_prefix cs ds) h in
    let (first, rest, e, same) = is_prefix-StartsWith cs ds others in
    (d ∷ first, rest, ap (λ r. d ∷ r) e, (d, first, refl, lower-SameLetter c d letter, same))
  where
    both : (a b : Bool) → (a && b) ≡ true → (a ≡ true) × (b ≡ true)
    both a b h = (ground arith, ground arith)

SameLetters-is_prefix :
    (p first rest : Bytes) → SameLetters p first → is_prefix p (first ++ rest) ≡ true
unfolding is_prefix SameLetters
SameLetters-is_prefix [] first rest h = refl
SameLetters-is_prefix (c ∷ cs) first rest (d, tail, e, letter, same) =
    subst (λ f. is_prefix (c ∷ cs) (f ++ rest) ≡ true) (sym e)
      (rw (SameLetter-lower c d letter, is_prefix) (SameLetters-is_prefix cs tail rest same))

-- The test of `compare` decides it.
pub is_match_lem : (prefix l : Bytes) → (is_match prefix l ≡ true) ↔ Matches prefix l
is_match_lem prefix l = (
  λ h. (
    filter prefix,
    filter l,
    filter-Kept prefix,
    filter-Kept l,
    is_prefix-StartsWith (filter prefix) (filter l) h,
  ),
  λ (p, w, kept_p, kept_w, (first, rest, e, same)).
      subst (λ q. is_prefix q (filter l) ≡ true) (Kept-filter prefix p kept_p)
        (subst (λ v. is_prefix p v ≡ true) (sym e ∙ Kept-filter l w kept_w)
          (SameLetters-is_prefix p first rest same)),
)
