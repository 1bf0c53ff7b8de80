-- ===== src/Passes/Pattern.antt =====
-- What the scripts use of Python's `re`: a pattern is a list of atoms, and the first way to match in
-- the order of backtracking is taken.
pub mod Names
use libarena_rs.Common.{
  ℕ, zero, suc, ◌-◌, Bool, true, false, not, ◌&&◌, ◌||◌, Option, none, some, List, [], ◌∷◌, ◌++◌,
  map, Text, codes, leb, ◌==◌, if◌then◌else◌, is_nil, length, fields, starts_with,
}

abbrev pub Class : Type 0
Class = ℕ → Bool

-- `\s`, and `str.isspace`.
abbrev pub is_space : Class
is_space c = (leb 9 c && leb c 13) || (leb 28 c && leb c 32)

-- `\S`
abbrev pub not_space : Class
not_space c = not (is_space c)

-- `\d`
abbrev pub is_digit : Class
is_digit c = leb b'0' c && leb c b'9'

-- `.`, and `[^\n]`
abbrev pub not_newline : Class
not_newline c = not (c == 10)

abbrev pub is_letter : Class
is_letter c = (leb b'A' c && leb c b'Z') || (leb b'a' c && leb c b'z')

-- `[A-Za-z0-9_.$]`
unfoldable pub name_char : Class
name_char c = is_letter c || is_digit c || (c == b'_') || (c == b'.') || (c == b'$')

-- `\w`
abbrev pub word_char : Class
word_char c = is_letter c || is_digit c || (c == b'_')

pub data Atom : Type 0 where
  -- One character.
  one : Class → Atom
  -- `p*` and `p*?`.
  many lazy : Class → Atom
  -- `(p+)`, a group that is captured.
  group : Class → Atom
  -- ` ?` for one character.
  maybe : Class → Atom
  -- The end of a group that began with the pattern; what is behind it is captured.
  mark : Atom
  -- `\b`
  boundary : Atom
  -- `(?!a\b|b\b)`, for words.
  not_ahead : List Text → Atom

abbrev pub Pattern : Type 0
Pattern = List Atom

-- The characters of a literal.
abbrev pub lit : Text → Pattern
lit = map (λ x. one (λ c. c == x))

-- What a match gives: the captured groups in order, and the text behind it.
abbrev pub Match : Type 0
Match = List Text × Text

-- The way from here, with the character before it.
abbrev pub Rest : Type 0
Rest = Option ℕ → Text → Option Match

is_word : Option ℕ → Bool
is_word none = false
is_word (some c) = word_char c

first_of : Text → Option ℕ
first_of [] = none
first_of (c ∷ s) = some c

at_boundary : Option ℕ → Text → Bool
at_boundary prev s = elim (is_word prev) [
  | true ↦ not (is_word (first_of s))
  | false ↦ is_word (first_of s)
]

-- The word stands here, and ends here.
word_ahead : Text → Text → Bool
word_ahead [] s = not (is_word (first_of s))
word_ahead (w ∷ ws) [] = false
word_ahead (w ∷ ws) (c ∷ s) = elim (c == w) [ true ↦ word_ahead ws s | false ↦ false ]

any_ahead : List Text → Text → Bool
any_ahead [] s = false
any_ahead (w ∷ ws) s = elim (word_ahead w s) [ true ↦ true | false ↦ any_ahead ws s ]

abbrev or_else : Option Match → Option Match → Option Match
or_else (some m) other = some m
or_else none other = other

unfoldable pub greedy : Class → Rest → Rest
greedy p k prev [] = k prev []
greedy p k prev (c ∷ s) = elim (p c) [
  | true ↦ elim (greedy p k (some c) s) [ some m ↦ some m | none ↦ k prev (c ∷ s) ]
  | false ↦ k prev (c ∷ s)
]

unfoldable pub optional : Class → Rest → Rest
optional p k prev [] = k prev []
optional p k prev (c ∷ s) = elim (p c) [
  | true ↦ elim (k (some c) s) [ some m ↦ some m | none ↦ k prev (c ∷ s) ]
  | false ↦ k prev (c ∷ s)
]

unfoldable pub lazily : Class → Rest → Rest
lazily p k prev [] = k prev []
lazily p k prev (c ∷ s) = elim (k prev (c ∷ s)) [
  | some m ↦ some m
  | none ↦ elim (p c) [ true ↦ lazily p k (some c) s | false ↦ none ]
]

-- The group in front of the others.
abbrev pub captured : Text → Option Match → Option Match
captured g none = none
captured g (some (gs, rest)) = some (g ∷ gs, rest)

-- `acc` is what the group holds so far, at least one character.
unfoldable pub capture : Class → Rest → Text → Rest
capture p k acc prev [] = captured acc (k prev [])
capture p k acc prev (c ∷ s) = elim (p c) [
  | true ↦ elim (capture p k (acc ++ c ∷ []) (some c) s) [
    | some m ↦ some m
    | none ↦ captured acc (k prev (c ∷ s))
  ]
  | false ↦ captured acc (k prev (c ∷ s))
]

unfoldable pub match : Pattern → Rest
unfolding greedy optional lazily capture at_boundary is_word first_of any_ahead word_ahead
match [] prev s = some ([], s)
match (one p ∷ ats) prev [] = none
match (one p ∷ ats) prev (c ∷ s) = elim (p c) [ true ↦ match ats (some c) s | false ↦ none ]
match (many p ∷ ats) prev s = greedy p (match ats) prev s
match (maybe p ∷ ats) prev s = optional p (match ats) prev s
match (mark ∷ ats) prev s = captured s (match ats prev s)
match (lazy p ∷ ats) prev s = lazily p (match ats) prev s
match (group p ∷ ats) prev [] = none
match (group p ∷ ats) prev (c ∷ s) = elim (p c) [
  | true ↦ capture p (match ats) (c ∷ []) (some c) s
  | false ↦ none
]
match (boundary ∷ ats) prev s = elim (at_boundary prev s) [ true ↦ match ats prev s | false ↦ none ]
match (not_ahead ws ∷ ats) prev s = elim (any_ahead ws s) [ true ↦ none | false ↦ match ats prev s ]

-- `re.match`, at the start of a text.
abbrev pub matches : Pattern → Text → Bool
matches p s = elim (match p none s) [ some m ↦ true | none ↦ false ]

-- `re.finditer` of a pattern with `^` under MULTILINE, from a place that begins a line or not, and with
-- characters to skip up to the end of the last match: the groups of the matches.
unfoldable pub find_from : Pattern → Bool → ℕ → Text → List (List Text)
unfolding match
find_from p start skip [] = []
find_from p start (suc skip) (c ∷ s) = find_from p (c == 10) skip s
find_from p false zero (c ∷ s) = find_from p (c == 10) zero s
find_from p true zero (c ∷ s) = elim (match p none (c ∷ s)) [
  | none ↦ find_from p (c == 10) zero s
  | some m ↦ m.0 ∷ find_from p (c == 10) (length s - length m.1) s
]

-- The first group of each match.
abbrev pub first_groups : List (List Text) → List Text
first_groups [] = []
first_groups ([] ∷ ms) = first_groups ms
first_groups ((g ∷ gs) ∷ ms) = g ∷ first_groups ms

unfoldable pub find_all : Pattern → Text → List (List Text)
unfolding find_from
find_all p s = find_from p true zero s

lstrip : Text → Text
lstrip [] = []
lstrip (c ∷ s) = elim (is_space c) [ true ↦ lstrip s | false ↦ c ∷ s ]

unfoldable pub rstrip : Text → Text
rstrip [] = []
rstrip (c ∷ s) = elim (is_space c) [
  | true ↦ let rest = rstrip s in if is_nil rest then [] else c ∷ rest
  | false ↦ c ∷ rstrip s
]

-- `str.strip`
unfoldable pub strip : Text → Text
unfolding lstrip rstrip
strip s = rstrip (lstrip s)
