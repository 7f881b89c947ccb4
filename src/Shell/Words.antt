-- ===== src/Shell/Words.antt =====
-- P2B: Shell/mysh.c: `preprocess` of a line of words.
use compsci537_introduction.Common.{
  ℕ, zero, suc, ◌<◌, ◌≤◌, ◌≡◌, ◌≢◌, refl, sym, ap, ◌∙◌, ◌⊎◌, inl, inr, Bool, true, false, not, ◌&&◌,
  some, List, [], ◌∷◌, ◌++◌, ◌==◌, leb, length, get_elem?, All, arith,
}
use compsci537_introduction.Shell.Str.{Str, blank, tab, newline, redirect, text, tokens, flush}
use compsci537_introduction.Shell.Parse.{Argv, filled, max_args, scan, greeting, packed, preprocess}

-- A character that the shell takes as it is, and one that may stand in a word.
abbrev pub is_clean : ℕ → Bool
is_clean c = not (c == 0) && (not (c == tab) && (not (c == newline) && not (c == redirect)))

abbrev pub is_plain : ℕ → Bool
is_plain c = not (c == blank) && is_clean c

abbrev pub IsClean : Str → Type 0
IsClean = All (λ c. is_clean c ≡ true)

abbrev pub IsWord : Str → Type 0
IsWord w = (w ≢ []) × All (λ c. is_plain c ≡ true) w

-- Words with one blank between them.
abbrev pub join : List Str → Str
join [] = []
join (w ∷ []) = w
join (w ∷ (v ∷ vs)) = w ++ (blank ∷ join (v ∷ vs))

pub append_nil : (s : Str) → s ++ [] ≡ s
append_nil [] = refl
append_nil (c ∷ cs) = ap (λ r. c ∷ r) (append_nil cs)

pub append_assoc : (a b c : Str) → (a ++ b) ++ c ≡ a ++ (b ++ c)
append_assoc [] b c = refl
append_assoc (x ∷ xs) b c = ap (λ r. x ∷ r) (append_assoc xs b c)

pub append-IsClean : (a b : Str) → IsClean a → IsClean b → IsClean (a ++ b)
append-IsClean [] b h k = k
append-IsClean (c ∷ cs) b h k = (h.0, append-IsClean cs b h.1 k)

pub word-IsClean : (w : Str) → All (λ c. is_plain c ≡ true) w → IsClean w
word-IsClean [] h = _
word-IsClean (c ∷ cs) h = (let p = h.0 in ground arith, word-IsClean cs h.1)

pub join-IsClean : (ws : List Str) → All IsWord ws → IsClean (join ws)
join-IsClean [] h = _
join-IsClean (w ∷ []) h = word-IsClean w h.0.1
join-IsClean (w ∷ (v ∷ vs)) h =
    append-IsClean w (blank ∷ join (v ∷ vs)) (word-IsClean w h.0.1)
      (refl, join-IsClean (v ∷ vs) h.1)

pub scan-append :
    (s e e' : Str) (r : Bool)
    → IsClean s
    → scan e ≡ some (r, e')
    → scan (s ++ e) ≡ some (r, s ++ e')
unfolding scan
scan-append [] e e' r h k = k
scan-append (c ∷ cs) e e' r h k =
    let p = h.0 in
    let not_sign : (c == redirect) ≡ false = ground arith in
    let not_tab : (c == tab) ≡ false = ground arith in
    let not_newline : (c == newline) ≡ false = ground arith in
    rw (scan-append cs e e' r h.1 k, scan) (rw (not_sign, not_tab, not_newline) refl)

pub text-append : (s e : Str) → IsClean s → text (s ++ e) ≡ s ++ text e
unfolding text
text-append [] e h = refl
text-append (c ∷ cs) e h =
    let p = h.0 in
    let not_end : (c == 0) ≡ false = ground arith in
    rw (not_end, text) (ap (λ r. c ∷ r) (text-append cs e h.1))

-- The characters of a word go to the piece.
tokens_word :
    (w piece e : Str)
    → All (λ c. is_plain c ≡ true) w
    → tokens blank piece (w ++ e) ≡ tokens blank (piece ++ w) e
unfolding tokens
tokens_word [] piece e h = ap (λ q. tokens blank q e) (sym (append_nil piece))
tokens_word (c ∷ cs) piece e h =
    let p = h.0 in
    let other : (c == blank) ≡ false = ground arith in
    rw (other, tokens)
      (tokens_word cs (piece ++ (c ∷ [])) e h.1
        ∙ ap (λ q. tokens blank q e) (append_assoc piece (c ∷ []) cs))

flush_word : (w : Str) (rest : List Str) → w ≢ [] → flush w rest ≡ w ∷ rest
flush_word [] rest h = absurd (h refl)
flush_word (c ∷ cs) rest h = refl

-- A word before a blank.
pub tokens_first :
    (w e : Str) → IsWord w → tokens blank [] (w ++ (blank ∷ e)) ≡ w ∷ tokens blank [] e
unfolding tokens
tokens_first w e h = tokens_word w [] (blank ∷ e) h.1 ∙ flush_word w (tokens blank [] e) h.0

pub tokens_last : (w : Str) → IsWord w → tokens blank [] w ≡ w ∷ []
unfolding tokens
tokens_last w h =
    ap (tokens blank []) (sym (append_nil w)) ∙ tokens_word w [] [] h.1 ∙ flush_word w [] h.0

pub tokens-join : (ws : List Str) → All IsWord ws → tokens blank [] (join ws) ≡ ws
unfolding tokens
tokens-join [] h = refl
tokens-join (w ∷ []) h = tokens_last w h.0
tokens-join (w ∷ (v ∷ vs)) h =
    tokens_first w (join (v ∷ vs)) h.0 ∙ ap (λ r. w ∷ r) (tokens-join (v ∷ vs) h.1)

-- What may end a line: the newline, or nothing at the end of the input.
abbrev pub IsEnd : Str → Type 0
IsEnd e = (e ≡ []) ⊎ (e ≡ newline ∷ [])

pub end_scan : (e : Str) → IsEnd e → (e' : Str) × (scan e ≡ some (false, e')) × (text e' ≡ [])
unfolding scan text
end_scan e (inl h) = ([], rw h refl, refl)
end_scan e (inr h) = (0 ∷ [], rw h refl, refl)

pub greeting_word : (w : Str) (e : Str) → w ≢ [] → greeting (w ++ e) ≡ []
greeting_word [] e h = absurd (h refl)
greeting_word (c ∷ cs) e h = refl

join_nonempty : (w : Str) (ws : List Str) → IsWord w → join (w ∷ ws) ≢ []
join_nonempty w [] h = h.0
join_nonempty [] (v ∷ vs) h = absurd (h.0 refl)
join_nonempty (c ∷ cs) (v ∷ vs) h = λ e. cc

pub greeting-join :
    (w : Str) (ws : List Str) (e : Str) → IsWord w → greeting (join (w ∷ ws) ++ e) ≡ []
greeting-join w ws e h = greeting_word (join (w ∷ ws)) e (join_nonempty w ws h)

-- The pieces stand before the rest of the array.
pub filled_lt :
    (ws : List Str) (fresh : Argv) (k : ℕ) → k < length ws → filled ws fresh k ≡ get_elem? ws k
filled_lt [] fresh k lt = absurd (omega arith)
filled_lt (w ∷ ws) fresh zero lt = refl
filled_lt (w ∷ ws) fresh (suc k) lt = filled_lt ws (λ j. fresh (suc j)) k (omega arith)

pub filled_end : (ws : List Str) (fresh : Argv) → filled ws fresh (length ws) ≡ fresh (length ws)
filled_end [] fresh = refl
filled_end (w ∷ ws) fresh = filled_end ws (λ j. fresh (suc j))

preprocess_plain :
    (fresh : Argv) (command line : Str) (pieces : List Str)
    → scan command ≡ some (false, line)
    → tokens blank [] (text line) ≡ pieces
    → greeting command ≡ []
    → leb (length pieces) max_args ≡ true
    → preprocess fresh command
      ≡ some ([], some (packed false (length pieces) (filled pieces fresh)))
unfolding preprocess
preprocess_plain fresh command line pieces h t g fits =
    rw (h, preprocess) (rw t (rw (fits, g) (rw t refl)))

-- `preprocess` of a line of at most 100 words with one blank between them, none of which contains a
-- blank, a tab, a newline or `>`, returns these words, in the array that malloc gave, as a valid command without a redirection,
-- whether or not a newline ends the line.
pub preprocess-join :
    (fresh : Argv) (w : Str) (ws : List Str) (e : Str)
    → All IsWord (w ∷ ws)
    → IsEnd e
    → length (w ∷ ws) ≤ max_args
    → preprocess fresh (join (w ∷ ws) ++ e)
      ≡ some ([], some (packed false (length (w ∷ ws)) (filled (w ∷ ws) fresh)))
preprocess-join fresh w ws e h ending fits =
    let (e', scanned, ended) = end_scan e ending in
    let clean = join-IsClean (w ∷ ws) h in
    let ends : text (join (w ∷ ws) ++ e') ≡ join (w ∷ ws) =
      text-append (join (w ∷ ws)) e' clean
      ∙ ap (λ r. join (w ∷ ws) ++ r) ended
      ∙ append_nil (join (w ∷ ws)) in
    preprocess_plain fresh (join (w ∷ ws) ++ e) (join (w ∷ ws) ++ e') (w ∷ ws)
      (scan-append (join (w ∷ ws)) e e' false clean scanned)
      (ap (tokens blank []) ends ∙ tokens-join (w ∷ ws) h) (greeting-join w ws e h.0) (ground arith)
