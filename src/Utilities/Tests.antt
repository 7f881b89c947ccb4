-- ===== src/Utilities/Tests.antt =====
-- P1: UNIX Utilities/my-look.c and wordle.c on concrete lines.
use compsci537_introduction.Common.{◌≡◌, ◌↔◌, refl, true, some, List, [], ◌∷◌, length, arith}
use compsci537_introduction.Common.Streams.{Bytes, unlines}
use compsci537_introduction.Utilities.{is_candidate, wordle}
use compsci537_introduction.Utilities.Select.{select, Shares, wordle_lem}

-- `Al-1` and `crane`
abbrev two_lines : List Bytes
two_lines = (65 ∷ 108 ∷ 45 ∷ 49 ∷ []) ∷ ((99 ∷ 114 ∷ 97 ∷ 110 ∷ 101 ∷ []) ∷ [])

-- `aL`
abbrev a_prefix : Bytes
a_prefix = 97 ∷ 76 ∷ []

wordle_lem_example :
    (wordle (122 ∷ []) (unlines two_lines) ≡ some (select (is_candidate (122 ∷ [])) two_lines))
    × ((l : Bytes) → (is_candidate (122 ∷ []) l ≡ true) ↔ ((length l ≡ 6) × ¬ Shares (122 ∷ []) l))
wordle_lem_example = wordle_lem 122 [] two_lines (
  ((refl, (refl, (refl, (refl, _)))), omega arith),
  (((refl, (refl, (refl, (refl, (refl, _))))), omega arith), _),
)
