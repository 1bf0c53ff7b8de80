-- ===== src/Passes/Regex.antt =====
-- What lower_mem.py and bpf_finalize.py use of Python's `re`: expressions with groups, choices and
-- repetitions of expressions, under MULTILINE, with the first match in the order of backtracking.
pub mod Laws
use libarena_rs.Common.{
  ℕ, zero, suc, ◌+◌, ◌-◌, Bool, true, false, not, Option, none, some, List, [], ◌∷◌, ◌++◌, map,
  Text, ltb, ◌==◌, length,
}
use libarena_rs.Passes.Pattern.{Class, word_char}
use libarena_rs.Passes.Bytes.{take}

pub data Regex : Type 0 where
  empty : Regex
  char : Class → Regex
  pair choice : Regex → Regex → Regex
  -- `r*` and `r*?`.
  star lazy_star : Regex → Regex
  -- `(r)`, with its number.
  group : ℕ → Regex → Regex
  -- `^`, `$` and `\b`.
  line_start line_end boundary : Regex
  -- `(?!r)`, and `(?<!p)` for a character.
  unless_ahead : Regex → Regex
  unless_behind : Class → Regex

abbrev pub seq : List Regex → Regex
seq [] = empty
seq (r ∷ rs) = pair r (seq rs)

abbrev pub lit : Text → Regex
lit [] = empty
lit (c ∷ s) = pair (char (λ d. d == c)) (lit s)

-- `p*`, `p+` and `r?`.
abbrev pub many : Class → Regex
many p = star (char p)

abbrev pub some_of : Class → Regex
some_of p = pair (char p) (many p)

abbrev pub maybe : Regex → Regex
maybe r = choice r empty

-- The groups that are captured, the last one first, and the text behind a match.
abbrev pub Groups : Type 0
Groups = List (ℕ × Text)

abbrev pub Found : Type 0
Found = Groups × Text

-- The way from here, with the character before it.
abbrev pub Rest : Type 0
Rest = Option ℕ → Groups → Text → Option Found

starts_line : Option ℕ → Bool
starts_line none = true
starts_line (some c) = c == 10

abbrev pub ends_line : Text → Bool
ends_line [] = true
ends_line (c ∷ s) = c == 10

word_before : Option ℕ → Bool
word_before none = false
word_before (some c) = word_char c

word_after : Text → Bool
word_after [] = false
word_after (c ∷ s) = word_char c

at_boundary : Option ℕ → Text → Bool
at_boundary prev s = elim (word_before prev) [ true ↦ not (word_after s) | false ↦ word_after s ]

behind : Class → Option ℕ → Bool
behind p none = false
behind p (some c) = p c

abbrev when : Bool → Option Found → Option Found
when true m = m
when false m = none

abbrev unless : Option Found → Option Found → Option Found
unless (some _) m = none
unless none m = m

-- A repetition goes on only where its body has taken a character.
greedy : (Rest → Rest) → Rest → ℕ → Rest
greedy body k zero prev g s = k prev g s
greedy body k (suc n) prev g s =
    elim (body (λ p h t. when (ltb (length t) (length s)) (greedy body k n p h t)) prev g s) [
      | some m ↦ some m
      | none ↦ k prev g s
    ]

lazily : (Rest → Rest) → Rest → ℕ → Rest
lazily body k zero prev g s = k prev g s
lazily body k (suc n) prev g s = elim (k prev g s) [
  | some m ↦ some m
  | none ↦ body (λ p h t. when (ltb (length t) (length s)) (lazily body k n p h t)) prev g s
]

unfoldable pub match : Regex → Rest → Rest
unfolding greedy lazily starts_line at_boundary word_before word_after behind
match empty k prev g s = k prev g s
match (char p) k prev g [] = none
match (char p) k prev g (c ∷ s) = elim (p c) [ true ↦ k (some c) g s | false ↦ none ]
match (pair a b) k prev g s = match a (match b k) prev g s
match (choice a b) k prev g s = elim (match a k prev g s) [
  | some m ↦ some m
  | none ↦ match b k prev g s
]
match (star a) k prev g s = greedy (match a) k (length s) prev g s
match (lazy_star a) k prev g s = lazily (match a) k (length s) prev g s
match (group n a) k prev g s =
    match a (λ p h t. k p ((n, take (length s - length t) s) ∷ h) t) prev g s
match line_start k prev g s = when (starts_line prev) (k prev g s)
match line_end k prev g s = when (ends_line s) (k prev g s)
match boundary k prev g s = when (at_boundary prev s) (k prev g s)
match (unless_ahead a) k prev g s = unless (match a (λ p h t. some (h, t)) prev g s) (k prev g s)
match (unless_behind p) k prev g s = when (not (behind p prev)) (k prev g s)

-- A match at this place.
unfoldable pub match_here : Regex → Option ℕ → Text → Option Found
unfolding match
match_here r prev s = match r (λ p g t. some (g, t)) prev [] s

-- `re.search`, from this place on.
unfoldable pub search_from : Regex → Option ℕ → Text → Option Found
unfolding match_here
search_from r prev [] = match_here r prev []
search_from r prev (c ∷ s) = elim (match_here r prev (c ∷ s)) [
  | some m ↦ some m
  | none ↦ search_from r (some c) s
]

abbrev pub found : Option Found → Bool
found (some m) = true
found none = false

-- The text of a group, or of the whole match, which is group 0.
abbrev pub group_of : ℕ → Groups → Text
group_of n [] = []
group_of n ((m, t) ∷ g) = elim (n == m) [ true ↦ t | false ↦ group_of n g ]

-- `re.sub` with a function that has a state; no match of the expressions here is empty. `skip`
-- characters belong to the last match, and `left` matches are still to be replaced, if it is a number.
unfoldable pub sub_from :
    {S : Type 0} → Regex → (Text → Groups → S → Text × S) → Option ℕ → ℕ → Text → S → Text × S
unfolding match_here
sub_from r f prev skip [] st = ([], st)
sub_from r f prev (suc skip) (c ∷ s) st = sub_from r f (some c) skip s st
sub_from r f prev zero (c ∷ s) st = elim (match_here r prev (c ∷ s)) [
  | none ↦ let (out, st') = sub_from r f (some c) zero s st in (c ∷ out, st')
  | some (g, t) ↦
      let (new, st1) = f (take (suc (length s) - length t) (c ∷ s)) g st in
      let (out, st2) = sub_from r f (some c) (length s - length t) s st1 in (new ++ out, st2)
]

unfoldable pub sub : Regex → (Text → Groups → Text) → Text → Text
unfolding sub_from
sub r f s = (sub_from r (λ m g (u : Bool). (f m g, u)) none zero s true).0

-- `re.findall` of a group.
unfoldable pub find_all : Regex → ℕ → Text → List Text
unfolding sub_from
find_all r n s =
    (sub_from r (λ m g (found : List Text). (m, found ++ group_of n g ∷ [])) none zero s []).1

-- `re.sub` with `count=1`.
unfoldable pub sub_first : Regex → (Text → Groups → Text) → Text → Text
unfolding sub_from
sub_first r f s =
    (sub_from r (λ m g (first : Bool). elim first [ true ↦ (f m g, false) | false ↦ (m, false) ])
      none zero s true).0
