-- ===== src/Shell/Aliases.antt =====
-- P2B: Shell/mysh.c: the list of aliases as a map from names to commands.
use compsci537_introduction.Common.{
  ◌≡◌, ◌≢◌, refl, sym, ap, ◌∙◌, true, false, none, some, [], ◌∷◌, ◌++◌, Bool-cases, inl, inr,
  Option-cases,
}
use mathlib.Core.Path.{subst}
use mathlib.Core.Option.{none-ne-some}
use compsci537_introduction.Shell.Str.{Str, str_eq, str_eq_self, str_eq_sound}
use compsci537_introduction.Shell.Table.{
  CmdNode, Aliases, add_alias, remove, un_alias, find, detect_alias,
}
use compsci537_introduction.Shell.Run.{define_alias}

-- No name has two nodes.
unfoldable pub Once : Aliases → Type 0
Once [] = Unit
Once (node ∷ nodes) = (find node.alias nodes ≡ none) × Once nodes

pub differs : (a b : Str) → a ≢ b → str_eq a b ≡ false
differs a b ne = elim (Bool-cases (str_eq a b)) [
  | inl y ↦ absurd (ne (str_eq_sound a b y))
  | inr n ↦ n
]

find_at : (node : CmdNode) (nodes : Aliases) → find node.alias (node ∷ nodes) ≡ some node.command
unfolding find
find_at node nodes = rw (str_eq_self node.alias, find) refl

find_past :
    (x : Str) (node : CmdNode) (nodes : Aliases)
    → str_eq node.alias x ≡ false
    → find x (node ∷ nodes) ≡ find x nodes
unfolding find
find_past x node nodes n = rw (n, find) refl

-- A name that a list lacks is another one than its first, and the others lack it.
lacks :
    (x : Str) (node : CmdNode) (nodes : Aliases)
    → find x (node ∷ nodes) ≡ none
    → (str_eq node.alias x ≡ false) × (find x nodes ≡ none)
lacks x node nodes h = elim (Bool-cases (str_eq node.alias x)) [
  | inl y ↦ absurd (
      none-ne-some _
        (sym h ∙ ap (λ n. find n (node ∷ nodes)) (sym (str_eq_sound _ _ y)) ∙ find_at node nodes))
  | inr n ↦ (n, sym (find_past x node nodes n) ∙ h)
]

remove_hit :
    (name : Str) (node : CmdNode) (nodes : Aliases)
    → str_eq node.alias name ≡ true
    → remove name (node ∷ nodes) ≡ (true, nodes)
unfolding remove
remove_hit name node nodes y = rw (y, remove) refl

remove_miss :
    (name : Str) (node : CmdNode) (nodes : Aliases)
    → str_eq node.alias name ≡ false
    → remove name (node ∷ nodes) ≡ ((remove name nodes).0, node ∷ (remove name nodes).1)
unfolding remove
remove_miss name node nodes n = rw (n, remove) refl

remove_self : (name : Str) (head : Aliases) → Once head → find name (remove name head).1 ≡ none
unfolding Once remove find
remove_self name [] o = refl
remove_self name (node ∷ nodes) o = elim (Bool-cases (str_eq node.alias name)) [
  | inl y ↦
      rw (remove_hit name node nodes y)
        (subst (λ x. find x nodes ≡ none) (str_eq_sound node.alias name y) o.0)
  | inr n ↦
      rw (remove_miss name node nodes n)
        (find_past name node (remove name nodes).1 n ∙ remove_self name nodes o.1)
]

remove_other :
    (name x : Str) (head : Aliases) → name ≢ x → find x (remove name head).1 ≡ find x head
unfolding remove find
remove_other name x [] ne = refl
remove_other name x (node ∷ nodes) ne = elim (Bool-cases (str_eq node.alias name)) [
  | inl y ↦
      let other : node.alias ≢ x = λ e. ne (sym (str_eq_sound node.alias name y) ∙ e) in
      rw (remove_hit name node nodes y) (sym (find_past x node nodes (differs node.alias x other)))
  | inr n ↦ rw (remove_miss name node nodes n) (elim (Bool-cases (str_eq node.alias x)) [
    | inl z ↦
        let at_x = str_eq_sound node.alias x z in
        subst (λ u. find u (node ∷ (remove name nodes).1) ≡ find u (node ∷ nodes)) at_x
          (find_at node (remove name nodes).1 ∙ sym (find_at node nodes))
    | inr m ↦
        find_past x node (remove name nodes).1 m
        ∙ remove_other name x nodes ne
        ∙ sym (find_past x node nodes m)
  ])
]

remove_lacking :
    (name x : Str) (head : Aliases) → find x head ≡ none → find x (remove name head).1 ≡ none
unfolding remove find
remove_lacking name x [] h = refl
remove_lacking name x (node ∷ nodes) h =
    let (n, later) = lacks x node nodes h in
    elim (Bool-cases (str_eq node.alias name)) [
      | inl y ↦ rw (remove_hit name node nodes y) later
      | inr m ↦
          rw (remove_miss name node nodes m)
            (find_past x node (remove name nodes).1 n ∙ remove_lacking name x nodes later)
    ]

remove-Once : (name : Str) (head : Aliases) → Once head → Once (remove name head).1
unfolding Once remove
remove-Once name [] o = _
remove-Once name (node ∷ nodes) o = elim (Bool-cases (str_eq node.alias name)) [
  | inl y ↦ rw (remove_hit name node nodes y) o.1
  | inr n ↦
      rw (remove_miss name node nodes n)
        (remove_lacking name node.alias nodes o.0, remove-Once name nodes o.1)
]

-- A node behind a list that lacks its name.
module _ (node : CmdNode) where
  append_self :
      (head : Aliases)
      → find node.alias head ≡ none
      → find node.alias (head ++ (node ∷ [])) ≡ some node.command
  unfolding find
  append_self [] h = find_at node []
  append_self (first ∷ nodes) h =
      let (n, later) = lacks node.alias first nodes h in
      find_past node.alias first (nodes ++ (node ∷ [])) n ∙ append_self nodes later

  append_other :
      (x : Str) (head : Aliases) → node.alias ≢ x → find x (head ++ (node ∷ [])) ≡ find x head
  unfolding find
  append_other x [] ne = find_past x node [] (differs node.alias x ne)
  append_other x (first ∷ nodes) ne = elim (Bool-cases (str_eq first.alias x)) [
    | inl y ↦
        subst (λ u. find u (first ∷ (nodes ++ (node ∷ []))) ≡ find u (first ∷ nodes))
          (str_eq_sound first.alias x y)
          (find_at first (nodes ++ (node ∷ [])) ∙ sym (find_at first nodes))
    | inr n ↦
        find_past x first (nodes ++ (node ∷ [])) n
        ∙ append_other x nodes ne
        ∙ sym (find_past x first nodes n)
  ]

  append-Once :
      (head : Aliases) → Once head → find node.alias head ≡ none → Once (head ++ (node ∷ []))
  unfolding Once find
  append-Once [] o h = (refl, _)
  append-Once (first ∷ nodes) o h =
      let (n, later) = lacks node.alias first nodes h in
      let other : node.alias ≢ first.alias = λ e.
        let clash : false ≡ true =
          sym n ∙ ap (λ u. str_eq first.alias u) e ∙ str_eq_self first.alias in
        cc in
      (append_other first.alias nodes other ∙ o.0, append-Once nodes o.1 later)

-- What a list is after `name` got a command, and after it lost it.
abbrev pub Defined : Str → Str → Aliases → Aliases → Type 0
Defined name command head head' =
    Once head'
    × (detect_alias (some name) head' ≡ some command)
    × ((x : Str) → name ≢ x → detect_alias (some x) head' ≡ detect_alias (some x) head)

abbrev pub Undefined : Str → Aliases → Aliases → Type 0
Undefined name head head' =
    Once head'
    × (detect_alias (some name) head' ≡ none)
    × ((x : Str) → name ≢ x → detect_alias (some x) head' ≡ detect_alias (some x) head)

pub un_alias_lem :
    (name : Str) (head : Aliases) → Once head → Undefined name head (un_alias (some name) head).1
unfolding un_alias detect_alias
un_alias_lem name head o =
    (remove-Once name head o, remove_self name head o, λ x ne. remove_other name x head ne)

add_alias_lem :
    (name command : Str) (head : Aliases)
    → Once head
    → detect_alias (some name) head ≡ none
    → Defined name command head (add_alias (some name) command head).1
unfolding add_alias detect_alias
add_alias_lem name command head o h =
    let node : CmdNode = record { alias = name; command = command } in
    (append-Once node head o h, append_self node head h, λ x ne. append_other node x head ne)

pub define_alias_lem :
    (name command : Str) (head : Aliases)
    → Once head
    → Defined name command head (define_alias name command head)
define_alias_lem name command head o = elim (Option-cases (detect_alias (some name) head)) [
  | inl n ↦ rw (n, define_alias) (add_alias_lem name command head o n)
  | inr (old, s) ↦
      let (o', gone, others) = un_alias_lem name head o in
      let (o'', now, rest) = add_alias_lem name command (un_alias (some name) head).1 o' gone in
      rw (s, define_alias) (o'', now, λ x ne. rest x ne ∙ others x ne)
]
