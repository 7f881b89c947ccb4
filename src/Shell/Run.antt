-- ===== src/Shell/Run.antt =====
-- P2B: Shell/mysh.c: the execution of commands, and the loop over the lines. Whether fork and fopen
-- succeed are parameters; a child is what it hands to execv.
use compsci537_introduction.Common.{
  ℕ, zero, suc, ◌+◌, ◌-◌, Bool, true, false, not, ◌||◌, Option, none, some, List, [], ◌∷◌, ◌++◌,
  map, ◌==◌, ltb, leb, if◌then◌else◌, length,
}
use compsci537_introduction.Common.Maps.{update}
use compsci537_introduction.Common.Streams.{fgets}
use compsci537_introduction.Shell.Str.{Str, blank, newline, str_eq}
use compsci537_introduction.Shell.Table.{CmdNode, Aliases, add_alias, un_alias, detect_alias}
use compsci537_introduction.Shell.Parse.{
  Output, prompt, too_dangerous, wrong_number, fork_failed, command_too_long, listing, echo, Argv,
  max_args, Arg, preprocess,
}

abbrev pub alias_word : Str
alias_word = 97 ∷ 108 ∷ 105 ∷ 97 ∷ 115 ∷ []

-- `unAlias`
abbrev pub unalias_word : Str
unalias_word = 117 ∷ 110 ∷ 65 ∷ 108 ∷ 105 ∷ 97 ∷ 115 ∷ []

abbrev pub exit_word : Str
exit_word = 101 ∷ 120 ∷ 105 ∷ 116 ∷ []

-- The second loop of `concat`, over `n` strings from `i` on.
unfoldable pub concat_loop : ℕ → ℕ → Argv → Option Str
concat_loop zero i strings = some []
concat_loop (suc n) i strings = elim (strings i) [
  | none ↦ none
  | some piece ↦ elim (concat_loop n (i + 1) strings) [
    | none ↦ none
    | some rest ↦ some (if n == 0 then piece else piece ++ (blank ∷ rest))
  ]
]

unfoldable pub concat : ℕ → Argv → Option Str
concat size strings = concat_loop (size - 2) 2 strings

-- The first loop of `concat`: the sizes from `i` on, and with `size` the room that is allocated.
unfoldable pub total_length : ℕ → ℕ → Argv → Option ℕ
total_length zero i strings = some 0
total_length (suc n) i strings = elim (strings i) [
  | none ↦ none
  | some piece ↦ elim (total_length n (i + 1) strings) [
    | none ↦ none
    | some rest ↦ some (length piece + rest)
  ]
]

unfoldable pub total_size : ℕ → Argv → Option ℕ
total_size size strings = elim (total_length (size - 2) 2 strings) [
  | none ↦ none
  | some total ↦ some (total + size)
]

abbrev pub is_reserved : Str → Bool
is_reserved name = str_eq name unalias_word || (str_eq name alias_word || str_eq name exit_word)

-- `addAlias` after `unAlias` where the name is taken.
abbrev pub define_alias : Str → Str → Aliases → Aliases
define_alias name command head = elim (detect_alias (some name) head) [
  | none ↦ (add_alias (some name) command head).1
  | some old ↦ (add_alias (some name) command (un_alias (some name) head).1).1
]

-- `executeAlias`
unfoldable pub execute_alias : Arg → Aliases → Option (Aliases × List Output)
execute_alias arg head =
    if arg.argc == 1
    then some (head, map (λ (n : CmdNode). listing n.alias n.command) head)
    else elim (arg.argv 1) [
      | none ↦ none
      | some name ↦
          if is_reserved name
          then some (head, too_dangerous ∷ [])
          else if arg.argc == 2
          then elim (detect_alias (some name) head) [
            | none ↦ some (head, [])
            | some command ↦ some (head, listing name command ∷ [])
          ]
          else elim (concat arg.argc arg.argv) [
            | none ↦ none
            | some command ↦ some (define_alias name command head, [])
          ]
    ]

-- `executeunAlias`
unfoldable pub executeun_alias : Arg → Aliases → Aliases × List Output
executeun_alias arg head =
    if arg.argc == 2 then ((un_alias (arg.argv 1) head).1, []) else (head, wrong_number ∷ [])

-- How a child ends: a file that does not open, a call of execv with the file that takes its output, or
-- behaviour that C leaves undefined.
pub data Child : Type 0 where
  cannot_write : Str → Child
  execs : Option Str → List Str → Child
  crashes : Child

-- The strings of an array up to NULL, over `n` places from `i` on.
unfoldable pub args_from : ℕ → ℕ → Argv → Option (List Str)
args_from zero i argv = none
args_from (suc n) i argv = elim (argv i) [
  | none ↦ some []
  | some piece ↦ elim (args_from n (i + 1) argv) [ none ↦ none | some rest ↦ some (piece ∷ rest) ]
]

-- `execv(argv[0], argv)`
unfoldable pub execv : Option Str → Argv → Child
execv file argv = elim (args_from max_args 0 argv) [
  | none ↦ crashes
  | some [] ↦ crashes
  | some (piece ∷ pieces) ↦ execs file (piece ∷ pieces)
]

-- The loop that puts the arguments behind those of the alias: `n` of them, from `i` on.
unfoldable pub append_args : ℕ → ℕ → ℕ → Argv → Argv → Argv
append_args zero i argc argv args = argv
append_args (suc n) i argc argv args =
    append_args n (i + 1) (argc + 1) (update argv argc (args i)) args

-- What malloc's arrays hold: of the call of `preprocess` for a line, and of the child's for an alias.
pub record Blocks : Type 0 where
  pub line : Argv
  pub alias : Argv

-- The child from the test for an alias on.
unfoldable pub expand : Argv → Option Str → ℕ → Argv → Aliases → Child
expand fresh file argc argv head = elim (detect_alias (argv 0) head) [
  | none ↦ execv file argv
  | some alias ↦ elim (preprocess fresh alias) [
    | none ↦ crashes
    | some (out, none) ↦ crashes
    | some (out, some alias_arg) ↦
        if leb (alias_arg.argc + argc) max_args
        then execv file (append_args argc 1 alias_arg.argc alias_arg.argv argv)
        else crashes
  ]
]

-- The child.
unfoldable pub child : Argv → (Str → Bool) → Arg → Aliases → Child
child fresh opens arg head =
    if not arg.is_redir
    then expand fresh none arg.argc arg.argv head
    else elim (arg.argv (arg.argc - 1)) [
      | none ↦ crashes
      | some filename ↦
          if opens filename
          then expand fresh (some filename) arg.argc (update arg.argv (arg.argc - 1) none) head
          else cannot_write filename
    ]

-- What `executeCommand` does: it ends the shell, or leaves a list of aliases, messages and a child.
pub data Step : Type 0 where
  exits : Step
  goes_on : Aliases → List Output → Option Child → Step

unfoldable pub execute_command : Argv → Bool → (Str → Bool) → Arg → Aliases → Option Step
execute_command fresh forks opens arg head = elim (arg.argv 0) [
  | none ↦ none
  | some name ↦
      if str_eq name exit_word
      then some exits
      else if str_eq name unalias_word
      then some (goes_on (executeun_alias arg head).0 (executeun_alias arg head).1 none)
      else if str_eq name alias_word
      then elim (execute_alias arg head) [
        | none ↦ none
        | some (head', out) ↦ some (goes_on head' out none)
      ]
      else if forks
      then some (goes_on head [] (some (child fresh opens arg head)))
      else some (goes_on head (fork_failed ∷ []) none)
]

-- What the shell does, in order.
pub data Event : Type 0 where
  writes : Output → Event
  runs : Child → Event

abbrev pub events : List Output → Option Child → List Event
events out none = map writes out
events out (some c) = map writes out ++ (runs c ∷ [])

-- The lines of a loop of `main`, for the n-th call of fork: the body for a line, and whether the
-- shell goes on.
unfoldable pub run_line :
    Blocks → Bool → (Str → Bool) → Str → Aliases → Option (Bool × Aliases × List Event)
run_line blocks forks opens line head = elim (preprocess blocks.line line) [
  | none ↦ none
  | some (out, none) ↦ some (true, head, map writes out)
  | some (out, some arg) ↦
      if not arg.is_valid
      then some (true, head, map writes out)
      else elim (execute_command blocks.alias forks opens arg head) [
        | none ↦ none
        | some exits ↦ some (false, head, map writes out)
        | some (goes_on head' out' c) ↦ some (true, head', map writes out ++ events out' c)
      ]
]

-- The body of the loop in interactive mode, from the line that was read on.
unfoldable pub interactive_line :
    Blocks → Bool → (Str → Bool) → Str → Aliases → Option (Bool × Aliases × List Event)
interactive_line blocks forks opens line head =
    if ltb 511 (length line)
    then some (true, head, writes command_too_long ∷ [])
    else if str_eq line (newline ∷ [])
    then some (true, head, [])
    else run_line blocks forks opens line head

-- The body of the loop in batch mode.
unfoldable pub batch_line :
    Blocks → Bool → (Str → Bool) → Str → Aliases → Option (Bool × Aliases × List Event)
batch_line blocks forks opens line head =
    if ltb (length line) 511
    then elim (run_line blocks forks opens line head) [
      | none ↦ none
      | some (on, head', es) ↦ some (on, head', writes (echo line) ∷ es)
    ]
    else some (true, head, writes (echo line) ∷ [])

-- The loops of `main`, over the input that is left, with what comes before each read: the events, and
-- none when C leaves the behaviour undefined or the fuel ends.
unfoldable pub main_loop :
    (Blocks → Bool → (Str → Bool) → Str → Aliases → Option (Bool × Aliases × List Event))
    → (ℕ → Blocks)
    → (ℕ → Bool)
    → (Str → Bool)
    → List Event
    → ℕ
    → ℕ
    → Str
    → Aliases
    → Option (List Event)
main_loop body blocks forks opens before zero n input head = none
main_loop body blocks forks opens before (suc fuel) n input head = elim input [
  | [] ↦ some before
  | c ∷ cs ↦ elim (body (blocks n) (forks n) opens (fgets 511 (c ∷ cs)).0 head) [
    | none ↦ none
    | some (on, head', es) ↦ elim on [
      | false ↦ some (before ++ es)
      | true ↦
          elim (main_loop body blocks forks opens before fuel (n + 1) (fgets 511 (c ∷ cs)).1
            head') [ none ↦ none | some rest ↦ some (before ++ (es ++ rest)) ]
    ]
  ]
]

-- `main` without arguments and with a batch file that opens, by the input.
unfoldable pub interactive : (ℕ → Blocks) → (ℕ → Bool) → (Str → Bool) → Str → Option (List Event)
interactive blocks forks opens input =
    main_loop interactive_line blocks forks opens (writes prompt ∷ []) (suc (length input)) 0 input
      []

unfoldable pub batch : (ℕ → Blocks) → (ℕ → Bool) → (Str → Bool) → Str → Option (List Event)
batch blocks forks opens input =
    main_loop batch_line blocks forks opens [] (suc (length input)) 0 input []
