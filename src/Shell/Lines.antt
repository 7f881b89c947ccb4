-- ===== src/Shell/Lines.antt =====
-- P2B: Shell/mysh.c: what a line does, from `preprocess` to the list of aliases and the child.
use compsci537_introduction.Common.{
  ℕ, suc, ◌+◌, ◌-◌, ◌≤◌, ◌<◌, ◌≡◌, refl, ap, ◌∙◌, Bool, true, false, Option, none, some, List, [],
  ◌∷◌, ◌++◌, ◌==◌, if◌then◌else◌, length, get_elem?, All, arith,
}
use compsci537_introduction.Common.Maps.{update_ne}
use compsci537_introduction.Shell.Str.{Str, blank, redirect, str_eq}
use compsci537_introduction.Shell.Table.{Aliases, detect_alias, un_alias}
use compsci537_introduction.Shell.Parse.{
  Output, Argv, filled, Arg, max_args, is_some, packed, preprocess,
}
use compsci537_introduction.Shell.Words.{filled_lt, IsWord, IsEnd, join, preprocess-join}
use compsci537_introduction.Shell.Redirect.{directed, preprocess_with_file}
use compsci537_introduction.Shell.Aliases.{Once, Defined, Undefined, define_alias_lem, un_alias_lem}
use compsci537_introduction.Shell.Child.{child_lem, child_alias, child_with_file}
use compsci537_introduction.Shell.Run.{
  Blocks, alias_word, unalias_word, exit_word, is_reserved, concat_loop, concat, define_alias,
  execute_alias, executeun_alias, execute_command, goes_on, Child, execs, cannot_write, child, runs,
  events, run_line,
}

concat_loop-join :
    (ws : List Str) (i : ℕ) (strings : Argv)
    → ((k : ℕ) → k < length ws → strings (i + k) ≡ get_elem? ws k)
    → concat_loop (length ws) i strings ≡ some (join ws)
unfolding concat_loop
concat_loop-join [] i strings h = refl
concat_loop-join (w ∷ []) i strings h =
    let e : i ≡ i + 0 = omega arith in
    let first : strings i ≡ some w = ap strings e ∙ h 0 (omega arith) in
    rw (first, concat_loop) refl
concat_loop-join (w ∷ (v ∷ vs)) i strings h =
    let e : i ≡ i + 0 = omega arith in
    let first : strings i ≡ some w = ap strings e ∙ h 0 (omega arith) in
    let shift : (k : ℕ) → i + 1 + k ≡ i + suc k = λ k. omega arith in
    let rest : concat_loop (length (v ∷ vs)) (i + 1) strings ≡ some (join (v ∷ vs)) =
      concat_loop-join (v ∷ vs) (i + 1) strings
        (λ k lt. ap strings (shift k) ∙ h (suc k) (omega arith)) in
    let more : (length (v ∷ vs) == 0) ≡ false = ground arith in
    step (length (v ∷ vs)) i strings w (join (v ∷ vs)) first rest more
  where
    step :
        (n i : ℕ) (strings : Argv) (w rest : Str)
        → strings i ≡ some w
        → concat_loop n (i + 1) strings ≡ some rest
        → (n == 0) ≡ false
        → concat_loop (suc n) i strings ≡ some (w ++ (blank ∷ rest))
    step n i strings w rest h r m = rw (h, r, m, concat_loop) refl

-- The command of `alias name t ts`.
concat_lem :
    (fresh : Argv) (a name t : Str) (ts : List Str)
    → concat (length (a ∷ (name ∷ (t ∷ ts)))) (filled (a ∷ (name ∷ (t ∷ ts))) fresh)
      ≡ some (join (t ∷ ts))
unfolding concat
concat_lem fresh a name t ts =
    let strings = filled (a ∷ (name ∷ (t ∷ ts))) fresh in
    let n : length (a ∷ (name ∷ (t ∷ ts))) - 2 ≡ length (t ∷ ts) = omega arith in
    let at : (k : ℕ) → 2 + k ≡ suc (suc k) = λ k. omega arith in
    ap (λ n. concat_loop n 2 strings) n
    ∙ concat_loop-join (t ∷ ts) 2 strings (λ k lt.
      ap strings (at k) ∙ filled_lt (a ∷ (name ∷ (t ∷ ts))) fresh (suc (suc k)) (omega arith))

-- A reserved name is one of the three commands of the shell.
reserved :
    (name : Str)
    → is_reserved name ≡ false
    → (str_eq name exit_word ≡ false)
      × (str_eq name unalias_word ≡ false)
      × (str_eq name alias_word ≡ false)
reserved name h = (ground arith, ground arith, ground arith)

execute_alias_lem :
    (fresh : Argv) (name t : Str) (ts : List Str) (head : Aliases)
    → is_reserved name ≡ false
    → execute_alias
        (packed false
          (length (alias_word ∷ (name ∷ (t ∷ ts))))
          (filled (alias_word ∷ (name ∷ (t ∷ ts))) fresh))
        head
      ≡ some (define_alias name (join (t ∷ ts)) head, [])
unfolding execute_alias
execute_alias_lem fresh name t ts head free =
    let many : (length (alias_word ∷ (name ∷ (t ∷ ts))) == 1) ≡ false = ground arith in
    let more : (length (alias_word ∷ (name ∷ (t ∷ ts))) == 2) ≡ false = ground arith in
    rw (many, free, more, concat_lem fresh alias_word name t ts, execute_alias) refl

alias_word-IsWord : IsWord alias_word
alias_word-IsWord = (λ e. cc, (refl, (refl, (refl, (refl, (refl, _))))))

unalias_word-IsWord : IsWord unalias_word
unalias_word-IsWord = (λ e. cc, (refl, (refl, (refl, (refl, (refl, (refl, (refl, _))))))))

module _ (blocks : Blocks) (forks : Bool) (opens : Str → Bool) (head : Aliases) where
  run_line_lem :
      (line : Str) (arg : Arg) (head' : Aliases) (out : List Output) (c : Option Child)
      → preprocess blocks.line line ≡ some ([], some arg)
      → arg.is_valid ≡ true
      → execute_command blocks.alias forks opens arg head ≡ some (goes_on head' out c)
      → run_line blocks forks opens line head ≡ some (true, head', events out c)
  unfolding run_line
  run_line_lem line arg head' out c p v x = rw (p, x, run_line) (rw v refl)

  -- The three kinds of commands that do not end the shell.
  runs_alias :
      (arg : Arg) (head' : Aliases) (out : List Output)
      → arg.argv 0 ≡ some alias_word
      → execute_alias arg head ≡ some (head', out)
      → execute_command blocks.alias forks opens arg head ≡ some (goes_on head' out none)
  unfolding execute_command
  runs_alias arg head' out h x = rw (h, x, execute_command) refl

  runs_unalias :
      (arg : Arg)
      → arg.argv 0 ≡ some unalias_word
      → execute_command blocks.alias forks opens arg head
        ≡ some (goes_on (executeun_alias arg head).0 (executeun_alias arg head).1 none)
  unfolding execute_command
  runs_unalias arg h = rw (h, execute_command) refl

  -- A line `alias name t ts`, of at most 100 words with one blank between them, for a name that is not
  -- reserved, gives the name the words from the third one on as its command, with one blank between
  -- them, and leaves every other name as it was; no name gets two commands.
  pub alias_line :
      (name t : Str) (ts : List Str) (e : Str)
      → Once head
      → All IsWord (name ∷ (t ∷ ts))
      → is_reserved name ≡ false
      → IsEnd e
      → length (alias_word ∷ (name ∷ (t ∷ ts))) ≤ max_args
      → (head' : Aliases) × (run_line blocks forks opens
            (join (alias_word ∷ (name ∷ (t ∷ ts))) ++ e)
            head
          ≡ some (true, head', []))
        × Defined name (join (t ∷ ts)) head head'
  alias_line name t ts e once words free ending room =
      let ws = alias_word ∷ (name ∷ (t ∷ ts)) in
      let arg = packed false (length ws) (filled ws blocks.line) in
      let head' = define_alias name (join (t ∷ ts)) head in
      (
        head',
        run_line_lem (join ws ++ e) arg head' [] none
            (preprocess-join blocks.line alias_word (name ∷ (t ∷ ts)) e (alias_word-IsWord, words)
              ending room)
            refl (runs_alias arg head' [] refl (execute_alias_lem blocks.line name t ts head free)),
        define_alias_lem name (join (t ∷ ts)) head once,
      )

  -- A line `unAlias name` takes the name off the list and leaves every other name as it was.
  pub unalias_line :
      (name e : Str)
      → Once head
      → IsWord name
      → IsEnd e
      → (head' : Aliases) × (run_line blocks forks opens
            (join (unalias_word ∷ (name ∷ [])) ++ e)
            head
          ≡ some (true, head', []))
        × Undefined name head head'
  unfolding executeun_alias
  unalias_line name e once word ending =
      let ws = unalias_word ∷ (name ∷ []) in
      let arg = packed false (length ws) (filled ws blocks.line) in
      let head' = (un_alias (some name) head).1 in
      (
        head',
        run_line_lem (join ws ++ e) arg head' [] none
            (preprocess-join blocks.line unalias_word (name ∷ []) e (unalias_word-IsWord, (word, _))
              ending (omega arith))
            refl (runs_unalias arg refl),
        un_alias_lem name head once,
      )

module _ (opens : Str → Bool) (head : Aliases) where
  runs_command :
      (fresh : Argv) (arg : Arg) (name : Str) (c : Child)
      → arg.argv 0 ≡ some name
      → is_reserved name ≡ false
      → child fresh opens arg head ≡ c
      → execute_command fresh true opens arg head ≡ some (goes_on head [] (some c))
  unfolding execute_command
  runs_command fresh arg name c h free x =
      let (no_exit, no_unalias, no_alias) = reserved name free in
      rw (h, no_exit, no_unalias, no_alias, x, execute_command) refl

  -- A line of a name and arguments, where the name is an alias for the words `t` and `ts`, makes a
  -- child that calls execv with these words and then the arguments, if together they are at most 99
  -- words, the name is not reserved and fork succeeds, and if the array that malloc gave for the line
  -- happens to hold NULL behind its words, where the code writes none.
  pub alias_runs :
      (blocks : Blocks) (name : Str) (args : List Str) (t : Str) (ts : List Str) (e : Str)
      → blocks.line (length (name ∷ args)) ≡ none
      → detect_alias (some name) head ≡ some (join (t ∷ ts))
      → All IsWord (name ∷ args)
      → All IsWord (t ∷ ts)
      → is_reserved name ≡ false
      → IsEnd e
      → length (t ∷ ts) + length (name ∷ args) ≤ max_args
      → run_line blocks true opens (join (name ∷ args) ++ e) head
        ≡ some (true, head, runs (execs none (t ∷ (ts ++ args))) ∷ [])
  alias_runs blocks name args t ts e ended known words command free ending room =
      let arg = packed false (length (name ∷ args)) (filled (name ∷ args) blocks.line) in
      run_line_lem blocks true opens head (join (name ∷ args) ++ e) arg head []
        (some (execs none (t ∷ (ts ++ args))))
        (preprocess-join blocks.line name args e words ending (omega arith)) refl
        (runs_command blocks.alias arg name _ refl free
          (child_alias blocks opens name args t ts head ended known command room))

  -- The same command with `>` and a file, whatever malloc gave.
  command_to_file :
      (blocks : Blocks) (w : Str) (ws : List Str) (file e : Str)
      → detect_alias (some w) head ≡ none
      → All IsWord (w ∷ ws)
      → IsWord file
      → is_reserved w ≡ false
      → IsEnd e
      → length (w ∷ ws) + 2 ≤ max_args
      → run_line blocks true opens (join (w ∷ ws) ++ (blank ∷ redirect ∷ blank ∷ (file ++ e))) head
        ≡ some (
          true,
          head,
          runs (if opens file then execs (some file) (w ∷ ws) else cannot_write file) ∷ [],
        )
  command_to_file blocks w ws file e unknown words file_word free ending room =
      let arg =
        packed true (length (w ∷ ws) + 1) (directed blocks.line (w ∷ ws) file words file_word) in
      let first : arg.argv 0 ≡ some w = update_ne _ (length (w ∷ ws)) (some file) 0 (omega arith) in
      let valid : arg.is_valid ≡ true = ap is_some first in
      run_line_lem blocks true opens head
        (join (w ∷ ws) ++ (blank ∷ redirect ∷ blank ∷ (file ++ e))) arg head [] _
        (preprocess_with_file blocks.line w ws file e words file_word ending room) valid
        (runs_command blocks.alias arg w _ first free
          (child_with_file blocks opens w ws file words file_word head unknown (omega arith)))

  -- A line of a command and arguments whose name is no alias makes a child that calls execv with them,
  -- if the array that malloc gave for the line happens to hold NULL behind the words, where the code
  -- writes none. With `>` and a file behind them, and whatever the array holds, the child calls
  -- execv with the words and its output in the file, or reports that it cannot open it. The words are
  -- at most 98, the name is not reserved, and fork succeeds.
  pub command_runs :
      (blocks : Blocks) (w : Str) (ws : List Str) (file e : Str)
      → blocks.line (length (w ∷ ws)) ≡ none
      → detect_alias (some w) head ≡ none
      → All IsWord (w ∷ ws)
      → IsWord file
      → is_reserved w ≡ false
      → IsEnd e
      → length (w ∷ ws) + 2 ≤ max_args
      → (run_line blocks true opens (join (w ∷ ws) ++ e) head
          ≡ some (true, head, runs (execs none (w ∷ ws)) ∷ []))
        × ((given : Blocks)
            → run_line given true opens
                (join (w ∷ ws) ++ (blank ∷ redirect ∷ blank ∷ (file ++ e)))
                head
              ≡ some (
                true,
                head,
                runs (if opens file then execs (some file) (w ∷ ws) else cannot_write file) ∷ [],
              ))
  command_runs blocks w ws file e ended unknown words file_word free ending room =
      let arg = packed false (length (w ∷ ws)) (filled (w ∷ ws) blocks.line) in
      (
        run_line_lem blocks true opens head (join (w ∷ ws) ++ e) arg head []
            (some (execs none (w ∷ ws)))
            (preprocess-join blocks.line w ws e words ending (omega arith)) refl
            (runs_command blocks.alias arg w _ refl free
              (child_lem blocks opens w ws head ended unknown (omega arith))),
        λ given. command_to_file given w ws file e unknown words file_word free ending room,
      )
