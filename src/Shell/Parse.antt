-- ===== src/Shell/Parse.antt =====
-- P2B: Shell/mysh.c: `preprocess`. An outer none is behaviour that C leaves undefined.
use compsci537_introduction.Common.{
  ℕ, zero, suc, ◌+◌, ◌-◌, Bool, true, false, not, ◌&&◌, Option, none, some, List, [], ◌∷◌, ◌++◌,
  ◌==◌, ltb, leb, if◌then◌else◌, length, get_elem?,
}
use compsci537_introduction.Common.Maps.{update}
use compsci537_introduction.Shell.Str.{
  Str, blank, tab, newline, redirect, str_eq, text, contains, tokens,
}

-- What the shell writes: a constructor for each message.
pub data Output : Type 0 where
  prompt : Output
  misformatted : Output
  too_dangerous : Output
  wrong_number : Output
  fork_failed : Output
  command_too_long : Output
  listing : Str → Str → Output
  echo : Str → Output

-- An array `char* cmd[100]` and its bound.
abbrev pub Argv : Type 0
Argv = ℕ → Option Str

-- The array with the pieces in its first places; the others hold what malloc gave.
abbrev pub filled : List Str → Argv → Argv
filled pieces fresh i = elim (get_elem? pieces i) [ none ↦ fresh i | some piece ↦ some piece ]

abbrev pub max_args : ℕ
max_args = 100

-- argument_pck of a command that is not misformatted.
pub record Arg : Type 0 where
  pub argv : Argv
  pub argc : ℕ
  pub is_redir : Bool
  pub is_valid : Bool

-- The loop over the characters, from the last one on: none after a second `>`.
unfoldable pub scan : Str → Option (Bool × Str)
scan [] = some (false, [])
scan (c ∷ cs) = elim (scan cs) [
  | none ↦ none
  | some (is_redir, rest) ↦
      if c == redirect
      then if is_redir then none else some (true, c ∷ rest)
      else if c == tab
      then some (is_redir, blank ∷ rest)
      else if c == newline
      then some (is_redir, 0 ∷ rest)
      else some (is_redir, c ∷ rest)
]

-- The last character, and the string without it.
abbrev pub last : Str → Option ℕ
last [] = none
last (c ∷ []) = some c
last (c ∷ (d ∷ ds)) = last (d ∷ ds)

abbrev pub without_last : Str → Str
without_last [] = []
without_last (c ∷ []) = []
without_last (c ∷ (d ∷ ds)) = c ∷ without_last (d ∷ ds)

abbrev pub starts_with : ℕ → Str → Bool
starts_with c [] = false
starts_with c (d ∷ ds) = d == c

abbrev pub ends_with : ℕ → Str → Bool
ends_with c s = elim (last s) [ none ↦ false | some d ↦ d == c ]

abbrev pub rest_of : Str → Str
rest_of [] = []
rest_of (c ∷ cs) = cs

-- The body of the loop for a piece that contains `>`; none is a misformatted redirection.
unfoldable pub redirect_piece : ℕ → ℕ → Argv → Str → Option (ℕ × Argv)
redirect_piece i argc cmd piece =
    if str_eq piece (redirect ∷ [])
    then if not (i + 2 == argc) then none else some (argc - 1, update cmd i (cmd (i + 1)))
    else if starts_with redirect piece
    then some (argc, update cmd i (some (rest_of piece)))
    else if ends_with redirect piece
    then some (argc, update cmd i (some (without_last piece)))
    else let pieces = tokens redirect [] piece in
      some (argc + 1, update (update cmd i (get_elem? pieces 0)) (i + 1) (get_elem? pieces 1))

-- The loop over the pieces from `i` on: the outer none is a NULL that is read through or an array
-- that overflows.
unfoldable pub redirect_loop : ℕ → ℕ → ℕ → Argv → Option (Option (ℕ × Argv))
redirect_loop zero i argc cmd = none
redirect_loop (suc fuel) i argc cmd = elim (ltb i argc) [
  | false ↦ some (some (argc, cmd))
  | true ↦ elim (cmd i) [
    | none ↦ none
    | some piece ↦ elim (contains redirect piece) [
      | false ↦ redirect_loop fuel (i + 1) argc cmd
      | true ↦ elim (redirect_piece i argc cmd piece) [
        | none ↦ some none
        | some (argc', cmd') ↦ elim (leb argc' max_args) [
          | false ↦ none
          | true ↦ redirect_loop fuel (i + 1) argc' cmd'
        ]
      ]
    ]
  ]
]

-- `strcmp(cmd[i], ">") != 0`
abbrev pub is_not_sign : Option Str → Bool
is_not_sign none = false
is_not_sign (some piece) = not (str_eq piece (redirect ∷ []))

-- What is done when `>` is contained, for at least one piece.
unfoldable pub redirection : ℕ → Argv → Option (Option (ℕ × Argv))
redirection zero cmd = none
redirection (suc n) cmd =
    if is_not_sign (cmd n) && is_not_sign (cmd 0)
    then redirect_loop 101 0 (suc n) cmd
    else some none

-- `cmd[0] != NULL`
abbrev pub is_some : Option Str → Bool
is_some none = false
is_some (some piece) = true

abbrev pub packed : Bool → ℕ → Argv → Arg
packed is_redir argc cmd = record {
  argv = cmd;
  argc = argc;
  is_redir = is_redir;
  is_valid = is_some (cmd 0);
}

-- The first message of `preprocess`.
abbrev pub greeting : Str → List Output
greeting [] = prompt ∷ []
greeting (c ∷ cs) = []

-- `preprocess`, where malloc gives an array that holds `fresh`, NULL or strings: the messages, and the result, where none is one that is not valid and has no `argv`.
unfoldable pub preprocess : Argv → Str → Option (List Output × Option Arg)
preprocess fresh command = elim (scan command) [
  | none ↦ some (greeting command ++ (misformatted ∷ []), none)
  | some (is_redir, line) ↦
      let pieces = tokens blank [] (text line) in
      let cmd = filled pieces fresh in
      elim (leb (length pieces) max_args) [
        | false ↦ none
        | true ↦ elim is_redir [
          | false ↦ some (greeting command, some (packed false (length pieces) cmd))
          | true ↦ elim (redirection (length pieces) cmd) [
            | none ↦ none
            | some none ↦ some (greeting command ++ (misformatted ∷ []), none)
            | some (some (argc, cmd')) ↦ some (greeting command, some (packed true argc cmd'))
          ]
        ]
      ]
]
