-- ===== src/Shell/Child.antt =====
-- P2B: Shell/mysh.c: what the child of a command hands to execv.
use compsci537_introduction.Common.{
  ℕ, zero, suc, ◌+◌, ◌-◌, ◌≤◌, ◌<◌, ◌≡◌, refl, sym, ap, ◌∙◌, inl, inr, Bool, true, false, Option,
  none, some, List, [], ◌∷◌, ◌++◌, leb, ltb, ltb_iff, if◌then◌else◌, length, length-append,
  get_elem?, All, arith, Bool-cases,
}
use compsci537_introduction.Common.Maps.{update, update_self, update_ne}
use compsci537_introduction.Shell.Str.{Str, redirect}
use compsci537_introduction.Shell.Table.{Aliases, detect_alias}
use compsci537_introduction.Shell.Parse.{Output, Argv, filled, Arg, max_args, packed, preprocess}
use compsci537_introduction.Shell.Words.{
  filled_lt, filled_end, IsWord, join, append_nil, preprocess-join,
}
use compsci537_introduction.Shell.Redirect.{get_elem?-left, get_elem?-right, pieces, directed}
use compsci537_introduction.Shell.Run.{
  Blocks, cannot_write, execs, args_from, execv, append_args, expand, child,
}

-- An array holds the strings and then NULL.
abbrev pub Holds : Argv → ℕ → List Str → Type 0
Holds argv i ws = (k : ℕ) → k ≤ length ws → argv (i + k) ≡ get_elem? ws k

args_from_lem :
    (ws : List Str) (n i : ℕ) (argv : Argv)
    → Holds argv i ws
    → length ws < n
    → args_from n i argv ≡ some ws
unfolding args_from
args_from_lem ws zero i argv h lt = absurd (omega arith)
args_from_lem [] (suc n) i argv h lt =
    let e : i ≡ i + 0 = omega arith in
    let ended : argv i ≡ none = ap argv e ∙ h 0 (omega arith) in rw (ended, args_from) refl
args_from_lem (w ∷ ws) (suc n) i argv h lt =
    let e : i ≡ i + 0 = omega arith in
    let first : argv i ≡ some w = ap argv e ∙ h 0 (omega arith) in
    let shift : (k : ℕ) → i + 1 + k ≡ i + suc k = λ k. omega arith in
    let rest =
      args_from_lem ws n (i + 1) argv (λ k le. ap argv (shift k) ∙ h (suc k) (omega arith))
        (omega arith) in
    rw (first, rest, args_from) refl

pub execv_lem :
    (file : Option Str) (w : Str) (ws : List Str) (argv : Argv)
    → Holds argv 0 (w ∷ ws)
    → length (w ∷ ws) < max_args
    → execv file argv ≡ execs file (w ∷ ws)
unfolding execv
execv_lem file w ws argv h lt = rw (args_from_lem (w ∷ ws) max_args 0 argv h lt, execv) refl

get_elem?-end : (ws : List Str) → get_elem? ws (length ws) ≡ none
get_elem?-end [] = refl
get_elem?-end (w ∷ ws) = get_elem?-end ws

-- An array in which NULL happens to be behind the words.
Holds-filled :
    (ws : List Str) (fresh : Argv) → fresh (length ws) ≡ none → Holds (filled ws fresh) 0 ws
Holds-filled ws fresh ended k le =
    let start : 0 + k ≡ k = omega arith in
    elim (Bool-cases (ltb k (length ws))) [
      | inl y ↦
          let lt : k < length ws = (ltb_iff k (length ws)).0 y in
          ap (filled ws fresh) start ∙ filled_lt ws fresh k lt
      | inr n ↦
          let here : k ≡ length ws = ground arith in
          ap (filled ws fresh) (start ∙ here)
          ∙ filled_end ws fresh
          ∙ ended
          ∙ sym (get_elem?-end ws)
          ∙ ap (get_elem? ws) (sym here)
    ]

-- `append_args` leaves what stands before its range,
append_below :
    (n i argc : ℕ) (argv args : Argv) (k : ℕ) → k < argc → append_args n i argc argv args k ≡ argv k
unfolding append_args
append_below zero i argc argv args k lt = refl
append_below (suc n) i argc argv args k lt =
    append_below n (i + 1) (argc + 1) (update argv argc (args i)) args k (omega arith)
    ∙ update_ne argv argc (args i) k (omega arith)

-- and puts the arguments into it.
append_at :
    (n i argc : ℕ) (argv args : Argv) (j : ℕ)
    → j < n
    → append_args n i argc argv args (argc + j) ≡ args (i + j)
unfolding append_args
append_at zero i argc argv args j lt = absurd (omega arith)
append_at (suc n) i argc argv args zero lt =
    let e : argc + 0 ≡ argc = omega arith in
    let e' : i ≡ i + 0 = omega arith in
    ap (append_args n (i + 1) (argc + 1) (update argv argc (args i)) args) e
    ∙ append_below n (i + 1) (argc + 1) (update argv argc (args i)) args argc (omega arith)
    ∙ update_self argv argc (args i)
    ∙ ap args e'
append_at (suc n) i argc argv args (suc j) lt =
    let e : argc + suc j ≡ argc + 1 + j = omega arith in
    let e' : i + 1 + j ≡ i + suc j = omega arith in
    ap (append_args n (i + 1) (argc + 1) (update argv argc (args i)) args) e
    ∙ append_at n (i + 1) (argc + 1) (update argv argc (args i)) args j (omega arith)
    ∙ ap args e'

-- The words of the alias and the arguments, with NULL behind the arguments.
appended-Holds :
    (ts args : List Str) (name : Str) (line alias : Argv)
    → line (length (name ∷ args)) ≡ none
    → Holds
        (append_args
          (length (name ∷ args))
          1
          (length ts)
          (filled ts alias)
          (filled (name ∷ args) line))
        0
        (ts ++ args)
appended-Holds ts args name line alias ended k le =
    let argv =
      append_args (length (name ∷ args)) 1 (length ts) (filled ts alias)
        (filled (name ∷ args) line) in
    let total = length-append ts args in
    let start : 0 + k ≡ k = omega arith in
    elim (Bool-cases (ltb k (length ts))) [
      | inl y ↦
          let lt : k < length ts = (ltb_iff k (length ts)).0 y in
          ap argv start
          ∙ append_below (length (name ∷ args)) 1 (length ts) (filled ts alias)
              (filled (name ∷ args) line) k lt
          ∙ filled_lt ts alias k lt
          ∙ sym (get_elem?-left ts args k lt)
      | inr n ↦
          let j = k - length ts in
          let split : k ≡ length ts + j = ground arith in
          let inside : j < length (name ∷ args) = omega arith in
          let back : 1 + j ≡ 0 + suc j = omega arith in
          ap argv (start ∙ split)
          ∙ append_at (length (name ∷ args)) 1 (length ts) (filled ts alias)
              (filled (name ∷ args) line) j inside
          ∙ ap (filled (name ∷ args) line) back
          ∙ Holds-filled (name ∷ args) line ended (suc j) (omega arith)
          ∙ sym (get_elem?-right ts args j)
          ∙ ap (get_elem? (ts ++ args)) (sym split)
    ]

expand_plain :
    (fresh : Argv) (file : Option Str) (argc : ℕ) (argv : Argv) (head : Aliases)
    → detect_alias (argv 0) head ≡ none
    → expand fresh file argc argv head ≡ execv file argv
unfolding expand
expand_plain fresh file argc argv head h = rw (h, expand) refl

expand_words :
    (fresh : Argv) (file : Option Str) (argc : ℕ) (argv : Argv) (head : Aliases) (alias : Str)
    (out : List Output) (arg : Arg)
    → detect_alias (argv 0) head ≡ some alias
    → preprocess fresh alias ≡ some (out, some arg)
    → leb (arg.argc + argc) max_args ≡ true
    → expand fresh file argc argv head ≡ execv file (append_args argc 1 arg.argc arg.argv argv)
unfolding expand
expand_words fresh file argc argv head alias out arg h p fits = rw (h, p, fits, expand) refl

-- A command that is no alias, with NULL behind the words.
pub child_lem :
    (blocks : Blocks) (opens : Str → Bool) (w : Str) (ws : List Str) (head : Aliases)
    → blocks.line (length (w ∷ ws)) ≡ none
    → detect_alias (some w) head ≡ none
    → length (w ∷ ws) < max_args
    → child blocks.alias opens (packed false (length (w ∷ ws)) (filled (w ∷ ws) blocks.line)) head
      ≡ execs none (w ∷ ws)
unfolding child
child_lem blocks opens w ws head ended h lt =
    expand_plain blocks.alias none (length (w ∷ ws)) (filled (w ∷ ws) blocks.line) head h
    ∙ execv_lem none w ws (filled (w ∷ ws) blocks.line) (Holds-filled (w ∷ ws) blocks.line ended) lt

-- A command that is an alias for the words `t` and `ts`.
pub child_alias :
    (blocks : Blocks) (opens : Str → Bool) (name : Str) (args : List Str) (t : Str) (ts : List Str)
    (head : Aliases)
    → blocks.line (length (name ∷ args)) ≡ none
    → detect_alias (some name) head ≡ some (join (t ∷ ts))
    → All IsWord (t ∷ ts)
    → length (t ∷ ts) + length (name ∷ args) ≤ max_args
    → child blocks.alias opens
        (packed false (length (name ∷ args)) (filled (name ∷ args) blocks.line))
        head
      ≡ execs none (t ∷ (ts ++ args))
unfolding child
child_alias blocks opens name args t ts head ended h words room =
    let alias_arg = packed false (length (t ∷ ts)) (filled (t ∷ ts) blocks.alias) in
    let parsed : preprocess blocks.alias (join (t ∷ ts)) ≡ some ([], some alias_arg) =
      ap (preprocess blocks.alias) (sym (append_nil (join (t ∷ ts))))
      ∙ preprocess-join blocks.alias t ts [] words (inl refl) (omega arith) in
    let total = length-append ts args in
    expand_words blocks.alias none (length (name ∷ args)) (filled (name ∷ args) blocks.line) head
      (join (t ∷ ts)) [] alias_arg h parsed (ground arith)
    ∙ execv_lem none t (ts ++ args) _
        (appended-Holds (t ∷ ts) args name blocks.line blocks.alias ended) (omega arith)

-- The array of a redirection whose file was replaced by NULL.
directed-Holds :
    (fresh : Argv) (ws : List Str) (file : Str) (words : All IsWord ws) (file_word : IsWord file)
    → Holds (update (directed fresh ws file words file_word) (length ws) none) 0 ws
directed-Holds fresh ws file words file_word k le =
    let start : 0 + k ≡ k = omega arith in
    let cmd = directed fresh ws file words file_word in
    elim (Bool-cases (ltb k (length ws))) [
      | inl y ↦
          let lt : k < length ws = (ltb_iff k (length ws)).0 y in
          ap (update cmd (length ws) none) start
          ∙ update_ne cmd (length ws) none k (omega arith)
          ∙ update_ne (filled (pieces fresh ws file words file_word) fresh) (length ws) (some file)
              k (omega arith)
          ∙ filled_lt (pieces fresh ws file words file_word) fresh k
              (let size = length-append ws ((redirect ∷ []) ∷ (file ∷ [])) in omega arith)
          ∙ get_elem?-left ws _ k lt
      | inr n ↦
          let here : k ≡ length ws = ground arith in
          ap (update cmd (length ws) none) (start ∙ here)
          ∙ update_self cmd (length ws) none
          ∙ sym (get_elem?-end ws)
          ∙ ap (get_elem? ws) (sym here)
    ]

child_opens :
    (fresh : Argv) (opens : Str → Bool) (argc : ℕ) (argv : Argv) (file : Str) (head : Aliases)
    → argv (argc - 1) ≡ some file
    → opens file ≡ true
    → child fresh opens (packed true argc argv) head
      ≡ expand fresh (some file) argc (update argv (argc - 1) none) head
unfolding child
child_opens fresh opens argc argv file head h o = rw (h, o, child) refl

child_refused :
    (fresh : Argv) (opens : Str → Bool) (argc : ℕ) (argv : Argv) (file : Str) (head : Aliases)
    → argv (argc - 1) ≡ some file
    → opens file ≡ false
    → child fresh opens (packed true argc argv) head ≡ cannot_write file
unfolding child
child_refused fresh opens argc argv file head h o = rw (h, o, child) refl

-- A command with a redirection that is no alias.
pub child_with_file :
    (blocks : Blocks) (opens : Str → Bool) (w : Str) (ws : List Str) (file : Str)
    (words : All IsWord (w ∷ ws)) (file_word : IsWord file) (head : Aliases)
    → detect_alias (some w) head ≡ none
    → length (w ∷ ws) < max_args
    → child blocks.alias opens
        (packed true (length (w ∷ ws) + 1) (directed blocks.line (w ∷ ws) file words file_word))
        head
      ≡ (if opens file then execs (some file) (w ∷ ws) else cannot_write file)
child_with_file blocks opens w ws file words file_word head h lt =
    let n = length (w ∷ ws) in
    let cmd = directed blocks.line (w ∷ ws) file words file_word in
    let slot : n + 1 - 1 ≡ n = omega arith in
    let at_slot : cmd (n + 1 - 1) ≡ some file =
      ap cmd slot
      ∙ update_self (filled (pieces blocks.line (w ∷ ws) file words file_word) blocks.line) n
          (some file) in
    elim (Bool-cases (opens file)) [
      | inl y ↦
          let holds = directed-Holds blocks.line (w ∷ ws) file words file_word in
          let first : update cmd n none 0 ≡ some w = holds 0 (omega arith) in
          child_opens blocks.alias opens (n + 1) cmd file head at_slot y
          ∙ ap (λ i. expand blocks.alias (some file) (n + 1) (update cmd i none) head) slot
          ∙ expand_plain blocks.alias (some file) (n + 1) (update cmd n none) head
              (ap (λ o. detect_alias o head) first ∙ h)
          ∙ execv_lem (some file) w ws (update cmd n none) holds lt
          ∙ ap (λ b. if b then execs (some file) (w ∷ ws) else cannot_write file) (sym y)
      | inr r ↦
          child_refused blocks.alias opens (n + 1) cmd file head at_slot r
          ∙ ap (λ b. if b then execs (some file) (w ∷ ws) else cannot_write file) (sym r)
    ]
