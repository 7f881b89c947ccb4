-- ===== src/Shell/Tests.antt =====
-- P2B: Shell/mysh.c on concrete lines.
use compsci537_introduction.Common.{
  ℕ, ◌<◌, ◌≡◌, refl, inr, true, none, some, Bool, List, [], ◌∷◌, ◌++◌, if◌then◌else◌, get_elem?,
  length, arith,
}
use compsci537_introduction.Common.Maps.{update}
use compsci537_introduction.Common.Streams.{unlines}
use compsci537_introduction.Shell.Str.{
  Str, blank, redirect, newline, str_eq, text, contains, tokens,
}
use compsci537_introduction.Shell.Table.{Aliases, find, detect_alias}
use compsci537_introduction.Shell.Parse.{
  Argv, scan, redirect_piece, redirect_loop, redirection, preprocess, prompt,
}
use compsci537_introduction.Shell.Run.{
  Blocks, execs, crashes, execute_command, child, expand, execv, args_from, cannot_write, writes,
  runs, alias_word, unalias_word, concat_loop, concat, total_size, run_line, interactive_line,
  interactive, batch_line, batch,
}
use compsci537_introduction.Shell.Words.{IsWord, join}
use compsci537_introduction.Shell.Aliases.{Once, Defined, Undefined}
use compsci537_introduction.Shell.Lines.{alias_line, unalias_line, alias_runs, command_runs}
use compsci537_introduction.Shell.Loop.{run_lines, concat_fits, script_runs}

abbrev ll : Str
ll = 108 ∷ 108 ∷ []

abbrev ls : Str
ls = 108 ∷ 115 ∷ []

-- `-l`
abbrev long : Str
long = 45 ∷ 108 ∷ []

-- `out`
abbrev out : Str
out = 111 ∷ 117 ∷ 116 ∷ []

abbrev new_line : Str
new_line = newline ∷ []

-- An array that happens to hold NULL everywhere, one with a string in every place, and the arrays of
-- a line.
abbrev zeroed : Argv
zeroed i = none

abbrev stale : Argv
stale i = some out

abbrev lucky : Blocks
lucky = record { line = zeroed; alias = stale }

abbrev unlucky : Blocks
unlucky = record { line = stale; alias = stale }

abbrev any_file : Str → Bool
any_file name = true

ll-IsWord : IsWord ll
ll-IsWord = (λ e. cc, (refl, (refl, _)))

ls-IsWord : IsWord ls
ls-IsWord = (λ e. cc, (refl, (refl, _)))

long-IsWord : IsWord long
long-IsWord = (λ e. cc, (refl, (refl, _)))

out-IsWord : IsWord out
out-IsWord = (λ e. cc, (refl, (refl, (refl, _))))

-- The list with `ll` for `ls -l`.
abbrev one_alias : Aliases
one_alias = record { alias = ll; command = join (ls ∷ (long ∷ [])) } ∷ []

empty-Once : Once []
unfolding Once
empty-Once = _

one_alias-Once : Once one_alias
unfolding Once find
one_alias-Once = (refl, _)

known : detect_alias (some ll) one_alias ≡ some (join (ls ∷ (long ∷ [])))
unfolding detect_alias find
known = refl

unknown : detect_alias (some ls) one_alias ≡ none
unfolding detect_alias find
unknown = refl

alias_line_example :
    (head' : Aliases) × (run_line unlucky true any_file
        (join (alias_word ∷ (ll ∷ (ls ∷ (long ∷ [])))) ++ new_line)
        []
      ≡ some (true, head', []))
    × Defined ll (join (ls ∷ (long ∷ []))) [] head'
alias_line_example =
    alias_line unlucky true any_file [] ll ls (long ∷ []) new_line empty-Once
      (ll-IsWord, (ls-IsWord, (long-IsWord, _))) refl (inr refl) (omega arith)

unalias_line_example :
    (head' : Aliases) × (run_line unlucky true any_file
        (join (unalias_word ∷ (ll ∷ [])) ++ new_line)
        one_alias
      ≡ some (true, head', []))
    × Undefined ll one_alias head'
unalias_line_example =
    unalias_line unlucky true any_file one_alias ll new_line one_alias-Once ll-IsWord (inr refl)

alias_runs_example :
    run_line lucky true any_file (join (ll ∷ (out ∷ [])) ++ new_line) one_alias
    ≡ some (true, one_alias, runs (execs none (ls ∷ (long ∷ (out ∷ [])))) ∷ [])
alias_runs_example =
    alias_runs any_file one_alias lucky ll (out ∷ []) ls (long ∷ []) new_line refl known
      (ll-IsWord, (out-IsWord, _)) (ls-IsWord, (long-IsWord, _)) refl (inr refl) (omega arith)

command_runs_example :
    (run_line lucky true any_file (join (ls ∷ (long ∷ [])) ++ new_line) one_alias
      ≡ some (true, one_alias, runs (execs none (ls ∷ (long ∷ []))) ∷ []))
    × ((given : Blocks)
        → run_line given true any_file
            (join (ls ∷ (long ∷ [])) ++ (blank ∷ redirect ∷ blank ∷ (out ++ new_line)))
            one_alias
          ≡ some (
            true,
            one_alias,
            runs (if any_file out then execs (some out) (ls ∷ (long ∷ [])) else cannot_write out)
                ∷ [],
          ))
command_runs_example =
    command_runs any_file one_alias lucky ls (long ∷ []) out new_line refl unknown
      (ls-IsWord, (long-IsWord, _)) out-IsWord refl (inr refl) (omega arith)

abbrev four : Argv
four = get_elem? (alias_word ∷ (ll ∷ (ls ∷ (long ∷ []))))

concatenated : concat 4 four ≡ some (join (ls ∷ (long ∷ [])))
unfolding concat concat_loop
concatenated = refl

concat_fits_example :
    (total : ℕ) × (total_size 4 four ≡ some total) × (length (join (ls ∷ (long ∷ []))) < total)
concat_fits_example = concat_fits 4 four (join (ls ∷ (long ∷ []))) concatenated (omega arith)

abbrev two_lines : List Str
two_lines = join (alias_word ∷ (ll ∷ (ls ∷ []))) ∷ (ll ∷ [])

script_runs_example :
    (interactive (λ n. unlucky) (λ n. true) any_file (unlines two_lines)
      ≡ run_lines interactive_line
          (λ n. unlucky)
          (λ n. true)
          any_file
          (writes prompt ∷ [])
          0
          two_lines
          [])
    × (batch (λ n. unlucky) (λ n. true) any_file (unlines two_lines)
        ≡ run_lines batch_line (λ n. unlucky) (λ n. true) any_file [] 0 two_lines [])
script_runs_example =
    script_runs (λ n. unlucky) (λ n. true) any_file two_lines
      (
        (
          (refl, (refl, (refl, (refl, (refl, (refl, (refl, (refl, (refl, (refl, (refl, _))))))))))),
          omega arith,
        ),
        (((refl, (refl, _)), omega arith), _),
      )

-- `ls -l` when the array that malloc gave holds other strings: no NULL ends the arguments of execv.
stale_test :
    run_line unlucky true any_file (join (ls ∷ (long ∷ [])) ++ new_line) []
    ≡ some (true, [], runs crashes ∷ [])
unfolding run_line preprocess scan text tokens execute_command child expand detect_alias find execv
    args_from str_eq
stale_test = refl

-- `ls>out ls` when it holds NULL: the name of the file takes the place of the last piece, and NULL is read behind it.
crash_test : preprocess zeroed (ls ++ (redirect ∷ (out ++ (blank ∷ ls)))) ≡ none
unfolding preprocess scan text tokens contains redirection redirect_loop redirect_piece update
crash_test = refl
