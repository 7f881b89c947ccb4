-- ===== src/Utilities.antt =====
-- P1: UNIX Utilities/my-look.c and wordle.c: the filters that print lines of a file.
pub mod Letters
pub mod Select
mod Tests
use compsci537_introduction.Common.{
  ℕ, zero, suc, ◌+◌, Bool, true, false, not, ◌&&◌, ◌||◌, Option, none, some, List, [], ◌∷◌, ◌==◌,
  leb, if◌then◌else◌, length, map,
}
use compsci537_introduction.Common.Streams.{Bytes, fgets}

-- `isalpha` and `isdigit`
abbrev pub is_upper : ℕ → Bool
is_upper c = leb 65 c && leb c 90

abbrev pub is_alpha : ℕ → Bool
is_alpha c = is_upper c || (leb 97 c && leb c 122)

abbrev pub is_digit : ℕ → Bool
is_digit c = leb 48 c && leb c 57

-- The letter in lower case, as strncasecmp compares it.
abbrev pub lower : ℕ → ℕ
lower c = if is_upper c then c + 32 else c

-- `filter`
unfoldable pub filter : Bytes → Bytes
filter [] = []
filter (c ∷ cs) = let rest = filter cs in if is_alpha c || is_digit c then c ∷ rest else rest

-- `strncasecmp(prefix, words, strlen(prefix)) == 0`
unfoldable pub is_prefix : Bytes → Bytes → Bool
is_prefix [] words = true
is_prefix (c ∷ cs) [] = false
is_prefix (c ∷ cs) (d ∷ ds) = (lower c == lower d) && is_prefix cs ds

-- A loop `while(fgets(input, room + 1, fp))` that prints the lines which pass a test; none is a loop
-- that has not ended within the fuel.
unfoldable pub print_lines : ℕ → (Bytes → Bool) → ℕ → Bytes → Option (List Bytes)
print_lines room test zero input = none
print_lines room test (suc fuel) input = elim input [
  | [] ↦ some []
  | c ∷ cs ↦ elim (print_lines room test fuel (fgets room (c ∷ cs)).1) [
    | none ↦ none
    | some rest ↦
        let line = (fgets room (c ∷ cs)).0 in some (if test line then line ∷ rest else rest)
  ]
]

-- The room that `compare` has for a line, less the NUL, of the file and of the standard input.
abbrev pub room_of : Bool → ℕ
room_of true = 259
room_of false = 99

-- The test of `compare`.
abbrev pub is_match : Bytes → Bytes → Bool
is_match prefix input = is_prefix (filter prefix) (filter input)

-- `compare` of my-look.c with `flag == 1` or not, by the stream it reads: the lines it prints.
unfoldable pub compare : Bool → Bytes → Bytes → Option (List Bytes)
compare flag prefix stream =
    print_lines (room_of flag) (is_match prefix) (suc (length stream)) stream

-- `strchr(input, c) != NULL`
unfoldable pub has_char : ℕ → Bytes → Bool
has_char c [] = false
has_char c (d ∷ ds) = (d == c) || has_char c ds

-- The loop over the letters, for at least one of them: whether it stops at one that the line has.
unfoldable pub has_any : Bytes → Bytes → Bool
has_any [] input = false
has_any (c ∷ cs) input = let rest = has_any cs input in if has_char c input then true else rest

-- The lines that wordle prints: with five characters and a newline, or six without one.
abbrev pub is_candidate : Bytes → Bytes → Bool
is_candidate str input = (length input == 6) && not (has_any str input)

-- `main` of wordle.c for a file that opens, by the letters and the file; without letters `ptr` is
-- read before it is set.
unfoldable pub wordle : Bytes → Bytes → Option (List Bytes)
wordle [] stream = none
wordle (c ∷ cs) stream = print_lines 259 (is_candidate (c ∷ cs)) (suc (length stream)) stream
