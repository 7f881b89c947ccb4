-- ===== src/Shell/Str.antt =====
-- P2B: Shell/mysh.c: C strings as lists of bytes without their NUL, and the splitting by strtok.
use compsci537_introduction.Common.{
  ℕ, ◌≡◌, refl, Bool, true, false, ◌&&◌, ◌||◌, List, [], ◌∷◌, ◌++◌, ◌==◌, arith,
}
pub use compsci537_introduction.Common.Streams.{newline}

abbrev pub Str : Type 0
Str = List ℕ

abbrev pub blank : ℕ
blank = 32

abbrev pub tab : ℕ
tab = 9

-- `>`
abbrev pub redirect : ℕ
redirect = 62

-- `strcmp(a, b) == 0`
abbrev pub str_eq : Str → Str → Bool
str_eq [] [] = true
str_eq [] (b ∷ ys) = false
str_eq (a ∷ xs) [] = false
str_eq (a ∷ xs) (b ∷ ys) = (a == b) && str_eq xs ys

pub str_eq_self : (a : Str) → str_eq a a ≡ true
str_eq_self [] = refl
str_eq_self (a ∷ xs) = ground (arith, str_eq_self xs)

pub str_eq_sound : (a b : Str) → str_eq a b ≡ true → a ≡ b
str_eq_sound [] [] h = refl
str_eq_sound [] (b ∷ ys) h = ground arith
str_eq_sound (a ∷ xs) [] h = ground arith
str_eq_sound (a ∷ xs) (b ∷ ys) h =
    let first : a ≡ b = ground arith in let rest : xs ≡ ys = str_eq_sound xs ys (ground arith) in cc

-- The string that starts in a buffer: up to a NUL.
unfoldable pub text : Str → Str
text [] = []
text (c ∷ cs) = elim (c == 0) [ true ↦ [] | false ↦ c ∷ text cs ]

-- `strstr(s, ">") != NULL`, for the character
unfoldable pub contains : ℕ → Str → Bool
contains c [] = false
contains c (d ∷ ds) = (d == c) || contains c ds

-- A piece ends; an empty one is none.
abbrev pub flush : Str → List Str → List Str
flush [] pieces = pieces
flush (c ∷ cs) pieces = (c ∷ cs) ∷ pieces

-- What the calls of strtok return before NULL, with the piece read so far.
unfoldable pub tokens : ℕ → Str → Str → List Str
tokens delimiter piece [] = flush piece []
tokens delimiter piece (c ∷ cs) = elim (c == delimiter) [
  | true ↦ flush piece (tokens delimiter [] cs)
  | false ↦ tokens delimiter (piece ++ (c ∷ [])) cs
]
