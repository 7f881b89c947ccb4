-- ===== src/Common/Streams.antt =====
-- Reading a stream of bytes by lines, as `fgets` does.
use Prim.Native.Nat.{ℕ, zero, suc, ◌<◌}
use mathlib.Core.Path.{◌≡◌, refl}
use mathlib.Core.Bool.{true, false}
use mathlib.Core.List.{List, [], ◌∷◌, ◌++◌}
use native.Mathlib.Omega.{arith}
use compsci537_introduction.Common.Tests.{◌==◌}
use compsci537_introduction.Common.Lists.{length, All}

abbrev pub Bytes : Type 0
Bytes = List ℕ

abbrev pub newline : ℕ
newline = 10

-- `fgets` with room for `n` characters: the line, and what is left of the input.
unfoldable pub fgets : ℕ → Bytes → Bytes × Bytes
fgets zero input = ([], input)
fgets (suc n) [] = ([], [])
fgets (suc n) (c ∷ cs) = elim (c == newline) [
  | true ↦ (c ∷ [], cs)
  | false ↦ (c ∷ (fgets n cs).0, (fgets n cs).1)
]

-- The input that consists of lines.
abbrev pub unlines : List Bytes → Bytes
unlines [] = []
unlines (l ∷ ls) = l ++ (newline ∷ unlines ls)

pub fgets_line :
    (l rest : Bytes) (n : ℕ)
    → All (λ c. (c == newline) ≡ false) l
    → length l < n
    → fgets n (l ++ (newline ∷ rest)) ≡ (l ++ (newline ∷ []), rest)
unfolding fgets
fgets_line l rest zero h lt = absurd (omega arith)
fgets_line [] rest (suc n) h lt = refl
fgets_line (c ∷ cs) rest (suc n) h lt = rw (h.0, fgets_line cs rest n h.1 (omega arith), fgets) refl
