-- ===== src/Shell/Redirect.antt =====
-- P2B: Shell/mysh.c: `preprocess` of a line with a redirection, and its child.
use compsci537_introduction.Common.{
  ℕ, zero, suc, ◌+◌, ◌-◌, ◌≤◌, ◌<◌, ◌≡◌, refl, sym, ap, ◌∙◌, true, false, some, List, [], ◌∷◌, ◌++◌,
  ◌==◌, leb, ltb, length, get_elem?, length-append, All, arith,
}
use mathlib.Core.Path.{subst}
use compsci537_introduction.Common.Maps.{update}
use compsci537_introduction.Shell.Str.{Str, blank, redirect, str_eq, text, contains, tokens}
use compsci537_introduction.Shell.Parse.{
  Argv, filled, max_args, scan, greeting, packed, preprocess, redirect_piece, redirect_loop,
  redirection, is_not_sign,
}
use compsci537_introduction.Shell.Aliases.{differs}
use compsci537_introduction.Shell.Words.{
  filled_lt, is_plain, IsWord, join, IsEnd, end_scan, scan-append, text-append, join-IsClean,
  tokens_first, tokens_last, greeting-join, append_nil, append_assoc, word-IsClean,
}

word_contains : (w : Str) → All (λ c. is_plain c ≡ true) w → contains redirect w ≡ false
unfolding contains
word_contains [] h = refl
word_contains (c ∷ cs) h =
    let p = h.0 in
    let other : (c == redirect) ≡ false = ground arith in
    rw (other, contains) (word_contains cs h.1)

pass_step :
    (fuel i argc : ℕ) (cmd : Argv) (w : Str)
    → ltb i argc ≡ true
    → cmd i ≡ some w
    → contains redirect w ≡ false
    → redirect_loop (suc fuel) i argc cmd ≡ redirect_loop fuel (i + 1) argc cmd
unfolding redirect_loop
pass_step fuel i argc cmd w inside at_i no_sign = rw (inside, at_i, redirect_loop) (rw no_sign refl)

-- The loop leaves the words as they are.
redirect_pass :
    (ws : List Str) (fuel i argc : ℕ) (cmd : Argv)
    → All IsWord ws
    → i + length ws ≤ argc
    → ((k : ℕ) → k < length ws → cmd (i + k) ≡ get_elem? ws k)
    → redirect_loop (length ws + fuel) i argc cmd ≡ redirect_loop fuel (i + length ws) argc cmd
redirect_pass [] fuel i argc cmd h room same =
    ap (λ n. redirect_loop n i argc cmd) (omega arith)
    ∙ ap (λ n. redirect_loop fuel n argc cmd) (omega arith)
redirect_pass (w ∷ ws) fuel i argc cmd h room same =
    let at_i : cmd i ≡ some w = ap cmd (omega arith) ∙ same 0 (omega arith) in
    let inside : ltb i argc ≡ true = ground arith in
    ap (λ n. redirect_loop n i argc cmd) (omega arith)
    ∙ pass_step (length ws + fuel) i argc cmd w inside at_i (word_contains w h.0.1)
    ∙ redirect_pass ws fuel (i + 1) argc cmd h.1 (omega arith)
        (λ k lt. ap cmd (omega arith) ∙ same (suc k) (omega arith))
    ∙ ap (λ n. redirect_loop fuel n argc cmd) (omega arith)

pub get_elem?-left :
    (ws zs : List Str) (k : ℕ) → k < length ws → get_elem? (ws ++ zs) k ≡ get_elem? ws k
get_elem?-left [] zs k lt = absurd (omega arith)
get_elem?-left (w ∷ ws) zs zero lt = refl
get_elem?-left (w ∷ ws) zs (suc k) lt = get_elem?-left ws zs k (omega arith)

pub get_elem?-right :
    (ws zs : List Str) (k : ℕ) → get_elem? (ws ++ zs) (length ws + k) ≡ get_elem? zs k
get_elem?-right [] zs k = let e : 0 + k ≡ k = omega arith in ap (get_elem? zs) e
get_elem?-right (w ∷ ws) zs k =
    let e : suc (length ws) + k ≡ suc (length ws + k) = omega arith in
    ap (get_elem? (w ∷ (ws ++ zs))) e ∙ get_elem?-right ws zs k

-- `>` alone before the last piece.
abbrev sign : Str
sign = redirect ∷ []

sign_step :
    (fuel i : ℕ) (cmd : Argv)
    → cmd i ≡ some sign
    → i + 1 ≤ max_args
    → redirect_loop (suc (suc fuel)) i (i + 2) cmd ≡ some (some (i + 1, update cmd i (cmd (i + 1))))
unfolding redirect_loop redirect_piece contains
sign_step fuel i cmd at_i room =
    let inside : ltb i (i + 2) ≡ true = ground arith in
    let right : (i + 2 == i + 2) ≡ true = ground arith in
    let fits : leb (i + 2 - 1) max_args ≡ true = ground arith in
    let after : ltb (i + 1) (i + 2 - 1) ≡ false = ground arith in
    let one : i + 2 - 1 ≡ i + 1 = omega arith in
    rw (inside, at_i, redirect_loop) (rw (right, fits, after, one) refl)

-- The pieces of a command, a sign alone, and a file.
module _ (fresh : Argv) (ws : List Str) (file : Str) (words : All IsWord ws)
    (file_word : IsWord file) where
  abbrev pub pieces : List Str
  pieces = ws ++ (sign ∷ (file ∷ []))

  abbrev pub directed : Argv
  directed = update (filled pieces fresh) (length ws) (some file)

  count : length pieces ≡ length ws + 2
  count = length-append ws (sign ∷ (file ∷ []))

  at_sign : filled pieces fresh (length ws) ≡ some sign
  at_sign =
      let size = count in
      let e : length ws ≡ length ws + 0 = omega arith in
      filled_lt pieces fresh (length ws) (omega arith)
      ∙ ap (get_elem? pieces) e
      ∙ get_elem?-right ws (sign ∷ (file ∷ [])) 0

  pub at_file : filled pieces fresh (length ws + 1) ≡ some file
  at_file =
      let size = count in
      filled_lt pieces fresh (length ws + 1) (omega arith)
      ∙ get_elem?-right ws (sign ∷ (file ∷ [])) 1

  loop :
      (m : ℕ)
      → length ws + 1 ≤ max_args
      → redirect_loop (length ws + suc (suc m)) 0 (length ws + 2) (filled pieces fresh)
        ≡ some (some (length ws + 1, directed))
  loop m room =
      redirect_pass ws (suc (suc m)) 0 (length ws + 2) (filled pieces fresh) words (omega arith)
        (λ k lt.
          let size = count in
          ap (filled pieces fresh) (omega arith)
          ∙ filled_lt pieces fresh k (omega arith)
          ∙ get_elem?-left ws (sign ∷ (file ∷ [])) k lt)
      ∙ ap (λ i. redirect_loop (suc (suc m)) i (length ws + 2) (filled pieces fresh)) (omega arith)
      ∙ sign_step m (length ws) (filled pieces fresh) at_sign room
      ∙ ap (λ o. some (some (length ws + 1, update (filled pieces fresh) (length ws) o))) at_file

word_sign : (w : Str) → IsWord w → is_not_sign (some w) ≡ true
word_sign w h =
    let other : str_eq w sign ≡ false =
      differs w sign (λ e. let p = (subst IsWord e h).1.0 in cc) in
    rw other refl

redirection_lem :
    (fresh : Argv) (w : Str) (ws : List Str) (file : Str) (words : All IsWord (w ∷ ws))
    (file_word : IsWord file)
    → length (w ∷ ws) + 1 ≤ max_args
    → redirection
        (length (pieces fresh (w ∷ ws) file words file_word))
        (filled (pieces fresh (w ∷ ws) file words file_word) fresh)
      ≡ some (some (length (w ∷ ws) + 1, directed fresh (w ∷ ws) file words file_word))
unfolding redirection
redirection_lem fresh w ws file words file_word room =
    let cmd = filled (pieces fresh (w ∷ ws) file words file_word) fresh in
    let size : length (pieces fresh (w ∷ ws) file words file_word) ≡ suc (length (w ∷ ws) + 1) =
      count fresh (w ∷ ws) file words file_word ∙ omega arith in
    let last_file : is_not_sign (cmd (length (w ∷ ws) + 1)) ≡ true =
      ap is_not_sign (at_file fresh (w ∷ ws) file words file_word) ∙ word_sign file file_word in
    let first_word : is_not_sign (cmd 0) ≡ true = word_sign w words.0 in
    let m = 99 - length (w ∷ ws) in
    let rounds : 101 ≡ length (w ∷ ws) + suc (suc m) = omega arith in
    let all : suc (length (w ∷ ws) + 1) ≡ length (w ∷ ws) + 2 = omega arith in
    ap (λ n. redirection n cmd) size
    ∙ rw (last_file, first_word, redirection) refl
    ∙ ap (λ n. redirect_loop n 0 (suc (length (w ∷ ws) + 1)) cmd) rounds
    ∙ ap (λ n. redirect_loop (length (w ∷ ws) + suc (suc m)) 0 n cmd) all
    ∙ loop fresh (w ∷ ws) file words file_word m room

scan_sign :
    (s s' : Str)
    → scan s ≡ some (false, s')
    → scan (blank ∷ redirect ∷ blank ∷ s) ≡ some (true, blank ∷ redirect ∷ blank ∷ s')
unfolding scan
scan_sign s s' h = rw (h, scan) refl

tokens_words :
    (w : Str) (ws : List Str) (e : Str)
    → All IsWord (w ∷ ws)
    → tokens blank [] (join (w ∷ ws) ++ (blank ∷ e)) ≡ (w ∷ ws) ++ tokens blank [] e
tokens_words w [] e h = tokens_first w e h.0
tokens_words w (v ∷ vs) e h =
    ap (tokens blank []) (append_assoc w (blank ∷ join (v ∷ vs)) (blank ∷ e))
    ∙ tokens_first w (join (v ∷ vs) ++ (blank ∷ e)) h.0
    ∙ ap (λ r. w ∷ r) (tokens_words v vs e h.1)

tokens_of_sign :
    (file : Str) → IsWord file → tokens blank [] (redirect ∷ blank ∷ file) ≡ sign ∷ (file ∷ [])
unfolding tokens
tokens_of_sign file h = ap (λ r. sign ∷ r) (tokens_last file h)

preprocess_redirected :
    (fresh : Argv) (command line : Str) (argc : ℕ) (cmd : Argv)
    → scan command ≡ some (true, line)
    → greeting command ≡ []
    → leb (length (tokens blank [] (text line))) max_args ≡ true
    → redirection
        (length (tokens blank [] (text line)))
        (filled (tokens blank [] (text line)) fresh)
      ≡ some (some (argc, cmd))
    → preprocess fresh command ≡ some ([], some (packed true argc cmd))
unfolding preprocess
preprocess_redirected fresh command line argc cmd h g fits r = rw (h, fits, r, g, preprocess) refl

text_sign : (s : Str) → text (blank ∷ redirect ∷ blank ∷ s) ≡ blank ∷ redirect ∷ blank ∷ text s
unfolding text
text_sign s = refl

-- `preprocess` of at most 98 words, `>` and a file, with one blank between them and none of which
-- contains a blank, a tab, a newline or `>`, returns the words and the file as a command with a
-- redirection.
pub preprocess_with_file :
    (fresh : Argv) (w : Str) (ws : List Str) (file e : Str) (words : All IsWord (w ∷ ws))
    (file_word : IsWord file)
    → IsEnd e
    → length (w ∷ ws) + 2 ≤ max_args
    → preprocess fresh (join (w ∷ ws) ++ (blank ∷ redirect ∷ blank ∷ (file ++ e)))
      ≡ some (
        [],
        some (packed true (length (w ∷ ws) + 1) (directed fresh (w ∷ ws) file words file_word)),
      )
preprocess_with_file fresh w ws file e words file_word ending room =
    let (e', scanned, ended) = end_scan e ending in
    let clean = join-IsClean (w ∷ ws) words in
    let tail = blank ∷ redirect ∷ blank ∷ (file ++ e) in
    let tail' = blank ∷ redirect ∷ blank ∷ (file ++ e') in
    let file_text : text (file ++ e') ≡ file =
      text-append file e' (word-IsClean file file_word.1)
      ∙ ap (λ r. file ++ r) ended
      ∙ append_nil file in
    let line_text : text (join (w ∷ ws) ++ tail')
        ≡ join (w ∷ ws) ++ (blank ∷ redirect ∷ blank ∷ file) =
      text-append (join (w ∷ ws)) tail' clean
      ∙ ap (λ r. join (w ∷ ws) ++ r)
          (text_sign (file ++ e') ∙ ap (λ r. blank ∷ redirect ∷ blank ∷ r) file_text) in
    let split : tokens blank [] (text (join (w ∷ ws) ++ tail'))
        ≡ pieces fresh (w ∷ ws) file words file_word =
      ap (tokens blank []) line_text
      ∙ tokens_words w ws (redirect ∷ blank ∷ file) words
      ∙ ap (λ r. (w ∷ ws) ++ r) (tokens_of_sign file file_word) in
    let size = count fresh (w ∷ ws) file words file_word in
    preprocess_redirected fresh (join (w ∷ ws) ++ tail) (join (w ∷ ws) ++ tail')
      (length (w ∷ ws) + 1) (directed fresh (w ∷ ws) file words file_word)
      (scan-append (join (w ∷ ws)) tail tail' true clean (
        scan_sign (file ++ e) (file ++ e')
          (scan-append file e e' false (word-IsClean file file_word.1) scanned)))
      (greeting-join w ws tail words.0)
      (subst (λ ps. leb (length ps) max_args ≡ true) (sym split) (ground arith))
      (subst
        (λ ps.
          redirection (length ps) (filled ps fresh)
          ≡ some (some (length (w ∷ ws) + 1, directed fresh (w ∷ ws) file words file_word)))
        (sym split) (redirection_lem fresh w ws file words file_word (omega arith)))
