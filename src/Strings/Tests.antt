-- ===== src/Strings/Tests.antt =====
-- P2A: Scheduling/string.c at a concrete memory.
use compsci537_introduction.Common.{ℕ, suc, ◌+◌, ◌<◌, ◌≤◌, ◌≡◌, ◌⊎◌, inr, arith, ltb, if◌then◌else◌}
use compsci537_introduction.Strings.{Memory, memmove, safestrcpy}
use compsci537_introduction.Strings.Move.{memmove_lem}
use compsci537_introduction.Strings.Text.{Bytes, text, safestrcpy_lem}

-- The bytes 1 to 7, then NULs.
abbrev digits : Memory
digits a = if ltb a 7 then a + 1 else 0

digits-Bytes : Bytes digits
digits-Bytes a = ground arith

-- Overlapping areas.
memmove_lem_example :
    ((i : ℕ) → i < 4 → memmove digits 2 0 4 (2 + i) ≡ digits (0 + i))
    × ((a : ℕ) → (a < 2) ⊎ (2 + 4 ≤ a) → memmove digits 2 0 4 a ≡ digits a)
memmove_lem_example = memmove_lem digits 2 0 4

safestrcpy_lem_example :
    (text (safestrcpy digits 20 3 (suc 3)) 20 (suc 3) ≡ text digits 3 3)
    × ((a : ℕ) → (a < 20) ⊎ (20 + 3 < a) → safestrcpy digits 20 3 (suc 3) a ≡ digits a)
safestrcpy_lem_example = safestrcpy_lem digits 20 3 3 (omega arith) (inr (omega arith))
