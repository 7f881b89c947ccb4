-- ===== src/Utilities/Select.antt =====
-- P1: UNIX Utilities/my-look.c and wordle.c: which lines are printed.
use compsci537_introduction.Common.{
  ℕ, zero, suc, ◌<◌, ◌≡◌, ◌≢◌, ◌↔◌, refl, ap, inl, inr, Bool, true, false, some, List, [], ◌∷◌,
  ◌++◌, ◌==◌, ==_iff, if◌then◌else◌, length, length-append, All, arith, Bool-cases,
}
use compsci537_introduction.Common.Streams.{Bytes, newline, fgets, unlines, fgets_line}
use compsci537_introduction.Utilities.{print_lines, has_char, has_any, is_candidate, wordle}

-- A line without its newline that fits into the room.
abbrev pub IsLine : ℕ → Bytes → Type 0
IsLine room l = All (λ c. (c == newline) ≡ false) l × (length l < room)

-- The lines that pass a test, with their newlines.
unfoldable pub select : (Bytes → Bool) → List Bytes → List Bytes
select test [] = []
select test (l ∷ ls) =
    let rest = select test ls in
    if test (l ++ (newline ∷ [])) then (l ++ (newline ∷ [])) ∷ rest else rest

print_next :
    (room fuel : ℕ) (test : Bytes → Bool) (input line rest : Bytes) (out : List Bytes)
    → input ≢ []
    → fgets room input ≡ (line, rest)
    → print_lines room test fuel rest ≡ some out
    → print_lines room test (suc fuel) input ≡ some (if test line then line ∷ out else out)
unfolding print_lines
print_next room fuel test [] line rest out h f p = absurd (h refl)
print_next room fuel test (c ∷ cs) line rest out h f p = rw (f, p, print_lines) (rw f refl)

starts : (l rest : Bytes) → l ++ (newline ∷ rest) ≢ []
starts [] rest = λ e. cc
starts (c ∷ cs) rest = λ e. cc

print_lines-select :
    (room fuel : ℕ) (test : Bytes → Bool) (ls : List Bytes)
    → All (IsLine room) ls
    → length (unlines ls) < fuel
    → print_lines room test fuel (unlines ls) ≡ some (select test ls)
unfolding print_lines select
print_lines-select room zero test ls h lt = absurd (omega arith)
print_lines-select room (suc fuel) test [] h lt = refl
print_lines-select room (suc fuel) test (l ∷ ls) h lt =
    let parts = length-append l (newline ∷ unlines ls) in
    print_next room fuel test (unlines (l ∷ ls)) (l ++ (newline ∷ [])) (unlines ls) (select test ls)
      (starts l (unlines ls)) (fgets_line l (unlines ls) room h.0.0 h.0.1)
      (print_lines-select room fuel test ls h.1 (omega arith))

-- The lines that my-look takes whole: with their newline, 259 characters of a file and 99 of the
-- standard input.
abbrev pub Fits : Bool → Bytes → Type 0
Fits true = IsLine 259
Fits false = IsLine 99

-- A letter that both have.
abbrev pub Shares : Bytes → Bytes → Type 0
Shares str input = (c : ℕ) × (has_char c str ≡ true) × (has_char c input ≡ true)

any_sound : (str input : Bytes) → has_any str input ≡ true → Shares str input
unfolding has_any has_char
any_sound [] input h = absurd (let k : false ≡ true = h in cc)
any_sound (c ∷ cs) input h = elim (Bool-cases (has_char c input)) [
  | inl y ↦ (c, ground arith, y)
  | inr n ↦ let (d, a, b) = any_sound cs input (rw (n, has_any) at h) in (d, ground arith, b)
]

any_complete : (str input : Bytes) → Shares str input → has_any str input ≡ true
unfolding has_any has_char
any_complete [] input (d, a, b) = absurd (let k : false ≡ true = a in cc)
any_complete (c ∷ cs) input (d, a, b) = elim (Bool-cases (has_char c input)) [
  | inl y ↦ rw (y, has_any) refl
  | inr n ↦
      let other : (c == d) ≡ false = elim (Bool-cases (c == d)) [
        | inl same ↦
            absurd
              (let e : c ≡ d = (==_iff c d).0 same in let k = ap (λ x. has_char x input) e in cc)
        | inr m ↦ m
      ] in
      rw (n, has_any) (any_complete cs input (d, rw (other, has_char) at a, b))
]

candidate_iff : (str l : Bytes) → (is_candidate str l ≡ true) ↔ ((length l ≡ 6) × ¬ Shares str l)
candidate_iff str l = (
  λ h.
      let none_shared : has_any str l ≡ false = ground arith in
      (ground arith, λ s. let k = any_complete str l s in cc),
  λ (size, apart). elim (Bool-cases (has_any str l)) [
    | inl y ↦ absurd (apart (any_sound str l y))
    | inr n ↦ ground arith
  ],
)

-- For at least one letter, and on lines of at most 258 characters and a newline, wordle prints the
-- lines, in their order, that have five characters and none of the letters, and no others.
pub wordle_lem :
    (c : ℕ) (cs : Bytes) (ls : List Bytes)
    → All (IsLine 259) ls
    → (wordle (c ∷ cs) (unlines ls) ≡ some (select (is_candidate (c ∷ cs)) ls))
      × ((l : Bytes) → (is_candidate (c ∷ cs) l ≡ true) ↔ ((length l ≡ 6) × ¬ Shares (c ∷ cs) l))
unfolding wordle
wordle_lem c cs ls h =
    (print_lines-select 259 _ (is_candidate (c ∷ cs)) ls h (omega arith), candidate_iff (c ∷ cs))
