-- ===== src/Shell/Table.antt =====
-- P2B: Shell/mysh.c: the list of aliases. The pointers to names may be NULL, which is none.
use compsci537_introduction.Common.{
  Bool, true, false, Option, none, some, List, [], ◌∷◌, ◌++◌, if◌then◌else◌,
}
use compsci537_introduction.Shell.Str.{Str, str_eq}

-- cmdNode, without the link to the next one.
pub record CmdNode : Type 0 where
  pub alias : Str
  pub command : Str

-- The list that starts at `head`.
abbrev pub Aliases : Type 0
Aliases = List CmdNode

-- `addAlias`, for a command that is not NULL: what it returns, and the list.
unfoldable pub add_alias : Option Str → Str → Aliases → Bool × Aliases
add_alias none command head = (false, head)
add_alias (some alias_name) command head =
    (true, head ++ (record { alias = alias_name; command = command } ∷ []))

-- The loop of `unAlias`, and the list without the node at which it ends.
unfoldable pub remove : Str → Aliases → Bool × Aliases
remove name [] = (false, [])
remove name (node ∷ nodes) =
    let rest = remove name nodes in
    if str_eq node.alias name then (true, nodes) else (rest.0, node ∷ rest.1)

unfoldable pub un_alias : Option Str → Aliases → Bool × Aliases
unfolding remove
un_alias none head = (false, head)
un_alias (some alias_name) head = remove alias_name head

-- The loop of `detectAlias`.
unfoldable pub find : Str → Aliases → Option Str
find name [] = none
find name (node ∷ nodes) =
    let rest = find name nodes in if str_eq node.alias name then some node.command else rest

unfoldable pub detect_alias : Option Str → Aliases → Option Str
unfolding find
detect_alias none head = none
detect_alias (some alias) head = find alias head
