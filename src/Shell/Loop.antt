-- ===== src/Shell/Loop.antt =====
-- P2B: Shell/mysh.c: the loops of `main`, and the room that `concat` allocates.
use compsci537_introduction.Common.{
  ℕ, zero, suc, ◌+◌, ◌-◌, ◌≤◌, ◌<◌, ◌≡◌, ◌≢◌, refl, sym, ap, ◌∙◌, inl, inr, Bool, true, false,
  Option, none, some, List, [], ◌∷◌, ◌++◌, ◌==◌, if◌then◌else◌, length, length-append, All, arith,
  Bool-cases, Option-cases,
}
use mathlib.Core.Path.{subst}
use mathlib.Core.Option.{some-injective, none-ne-some}
use compsci537_introduction.Common.Streams.{fgets, unlines, fgets_line}
use compsci537_introduction.Shell.Str.{Str, blank, newline}
use compsci537_introduction.Shell.Table.{Aliases}
use compsci537_introduction.Shell.Parse.{Argv, prompt}
use compsci537_introduction.Shell.Run.{
  Blocks, concat_loop, concat, total_length, total_size, Event, writes, main_loop, interactive_line,
  interactive, batch_line, batch,
}

-- Each round of the loop adds at most a blank.
concat_room :
    (n i : ℕ) (strings : Argv) (s : Str)
    → concat_loop n i strings ≡ some s
    → (total : ℕ) × (total_length n i strings ≡ some total) × (length s ≤ total + n)
unfolding concat_loop total_length
concat_room zero i strings s h =
    let e : [] ≡ s = some-injective _ _ h in (0, refl, let l = ap length e in omega arith)
concat_room (suc n) i strings s h = elim (Option-cases (strings i)) [
  | inl missing ↦ absurd (none-ne-some _ (sym (rw (missing, concat_loop) refl) ∙ h))
  | inr (piece, here) ↦ elim (Option-cases (concat_loop n (i + 1) strings)) [
    | inl stops ↦ absurd (none-ne-some _ (sym (rw (here, stops, concat_loop) refl) ∙ h))
    | inr (rest, run) ↦
        let (total, t, le) = concat_room n (i + 1) strings rest run in
        let sum = length-append piece (blank ∷ rest) in
        let one : (if n == 0 then piece else piece ++ (blank ∷ rest)) ≡ s =
          some-injective _ _ (sym (rw (here, run, concat_loop) refl) ∙ h) in
        (
          length piece + total,
          rw (here, t, total_length) refl,
          subst (λ r. length r ≤ length piece + total + suc n) one
              (elim (Bool-cases (n == 0)) [
                | inl y ↦ rw y (omega arith)
                | inr m ↦ rw m (omega arith)
              ]),
        )
  ]
]

-- The command that `concat` writes for more than two strings and its NUL fit into the room that it
-- allocates.
pub concat_fits :
    (size : ℕ) (strings : Argv) (s : Str)
    → concat size strings ≡ some s
    → 2 < size
    → (total : ℕ) × (total_size size strings ≡ some total) × (length s < total)
unfolding concat total_size
concat_fits size strings s h many =
    let (total, t, le) = concat_room (size - 2) 2 strings s h in
    (total + size, rw (t, total_size) refl, omega arith)

-- A line without its newline.
abbrev pub IsLine : Str → Type 0
IsLine l = All (λ c. (c == newline) ≡ false) l × (length l < 511)

-- The lines one after the other: each goes whole to the body of the loop, until one ends the shell.
module _
    (body : Blocks → Bool → (Str → Bool) → Str → Aliases → Option (Bool × Aliases × List Event))
    (blocks : ℕ → Blocks) (forks : ℕ → Bool) (opens : Str → Bool) (before : List Event) where
  unfoldable pub run_lines : ℕ → List Str → Aliases → Option (List Event)
  run_lines n [] head = some before
  run_lines n (l ∷ ls) head = elim (body (blocks n) (forks n) opens (l ++ (newline ∷ [])) head) [
    | none ↦ none
    | some (on, head', es) ↦ elim on [
      | false ↦ some (before ++ es)
      | true ↦ elim (run_lines (n + 1) ls head') [
        | none ↦ none
        | some rest ↦ some (before ++ (es ++ rest))
      ]
    ]
  ]

  -- What follows a line, by what it did.
  abbrev next :
      Option (Bool × Aliases × List Event) → (Aliases → Option (List Event)) → Option (List Event)
  next none k = none
  next (some (false, head', es)) k = some (before ++ es)
  next (some (true, head', es)) k = elim (k head') [
    | none ↦ none
    | some rest ↦ some (before ++ (es ++ rest))
  ]

  next_same :
      (o : Option (Bool × Aliases × List Event)) (k k' : Aliases → Option (List Event))
      → ((head : Aliases) → k head ≡ k' head)
      → next o k ≡ next o k'
  next_same none k k' h = refl
  next_same (some (false, head', es)) k k' h = refl
  next_same (some (true, head', es)) k k' h = rw (h head', next) refl

  run_lines_next :
      (n : ℕ) (l : Str) (ls : List Str) (head : Aliases) (o : Option (Bool × Aliases × List Event))
      → body (blocks n) (forks n) opens (l ++ (newline ∷ [])) head ≡ o
      → run_lines n (l ∷ ls) head ≡ next o (run_lines (n + 1) ls)
  unfolding run_lines
  run_lines_next n l ls head none h = rw (h, run_lines) refl
  run_lines_next n l ls head (some (false, head', es)) h = rw (h, run_lines) refl
  run_lines_next n l ls head (some (true, head', es)) h = rw (h, run_lines) refl

  main_loop_next :
      (fuel n : ℕ) (input line rest : Str) (head : Aliases)
      (o : Option (Bool × Aliases × List Event))
      → input ≢ []
      → fgets 511 input ≡ (line, rest)
      → body (blocks n) (forks n) opens line head ≡ o
      → main_loop body blocks forks opens before (suc fuel) n input head
        ≡ next o (main_loop body blocks forks opens before fuel (n + 1) rest)
  unfolding main_loop
  main_loop_next fuel n [] line rest head o h f b = absurd (h refl)
  main_loop_next fuel n (c ∷ cs) line rest head none h f b = rw (f, b, main_loop) refl
  main_loop_next fuel n (c ∷ cs) line rest head (some (false, head', es)) h f b =
      rw (f, b, main_loop) refl
  main_loop_next fuel n (c ∷ cs) line rest head (some (true, head', es)) h f b =
      rw (f, b, main_loop) (rw (f, next) refl)

  starts : (l rest : Str) → l ++ (newline ∷ rest) ≢ []
  starts [] rest = λ e. cc
  starts (c ∷ cs) rest = λ e. cc

  main_loop_lines :
      (ls : List Str) (fuel n : ℕ) (head : Aliases)
      → All IsLine ls
      → length (unlines ls) < fuel
      → main_loop body blocks forks opens before fuel n (unlines ls) head ≡ run_lines n ls head
  unfolding run_lines main_loop
  main_loop_lines ls zero n head h lt = absurd (omega arith)
  main_loop_lines [] (suc fuel) n head h lt = refl
  main_loop_lines (l ∷ ls) (suc fuel) n head h lt =
      let o = body (blocks n) (forks n) opens (l ++ (newline ∷ [])) head in
      let parts = length-append l (newline ∷ unlines ls) in
      main_loop_next fuel n (unlines (l ∷ ls)) (l ++ (newline ∷ [])) (unlines ls) head o
        (starts l (unlines ls)) (fgets_line l (unlines ls) 511 h.0.0 h.0.1) refl
      ∙ next_same o (main_loop body blocks forks opens before fuel (n + 1) (unlines ls))
          (run_lines (n + 1) ls) (λ head'. main_loop_lines ls fuel (n + 1) head' h.1 (omega arith))
      ∙ sym (run_lines_next n l ls head o refl)

-- On an input of lines, each of at most 510 characters and a newline, the shell ends within the fuel
-- and does what the lines do one after the other, from an empty list of aliases on, until one of them
-- ends the shell; in interactive mode with a prompt before each line and before the end of the input.
pub script_runs :
    (blocks : ℕ → Blocks) (forks : ℕ → Bool) (opens : Str → Bool) (ls : List Str)
    → All IsLine ls
    → (interactive blocks forks opens (unlines ls)
        ≡ run_lines interactive_line blocks forks opens (writes prompt ∷ []) 0 ls [])
      × (batch blocks forks opens (unlines ls) ≡ run_lines batch_line blocks forks opens [] 0 ls [])
unfolding interactive batch
script_runs blocks forks opens ls h = (
  main_loop_lines interactive_line blocks forks opens (writes prompt ∷ []) ls _ 0 [] h
      (omega arith),
  main_loop_lines batch_line blocks forks opens [] ls _ 0 [] h (omega arith),
)
