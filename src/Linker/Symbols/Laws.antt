-- ===== src/Linker/Symbols/Laws.antt =====
-- What the symbol lists hold.
use libarena_rs.Common.{
  among, ℕ, ◌≡◌, refl, ap, inl, inr, Bool, true, false, not, Option, ◌==◌, codes, split_whitespace,
  starts_with, All, if◌then◌else◌, ◌&&◌, ◌||◌, none, some, List, [], ◌∷◌, ◌++◌, arith, Text,
  text_eq, text_eq_iff, contains, keep_if, lines, ◌∙◌, Bool-cases,
}
use libarena_rs.Sort.{IsRising, sort-IsSorted, dedup-IsRising, contains-sort, contains-dedup}
use libarena_rs.Linker.Symbols.{
  contains_str, code_symbol, nm_symbol, is_glue, filter_map, arena_symbols, noinline_symbols,
}

pub contains-append :
    (a : Text) (xs ys : List Text) → contains (xs ++ ys) a ≡ (contains xs a || contains ys a)
unfolding contains
contains-append a [] ys = refl
contains-append a (x ∷ xs) ys = ground (arith, contains-append a xs ys)

pub contains-keep_if :
    (p : Text → Bool) (a : Text) (xs : List Text)
    → contains (keep_if p xs) a ≡ (contains xs a && p a)
unfolding contains
contains-keep_if p a [] = refl
contains-keep_if p a (x ∷ xs) = elim (Bool-cases (text_eq x a)) [
  | inl same ↦
      let e : x ≡ a = (text_eq_iff x a).0 same in ground (arith, contains-keep_if p a xs, ap p e)
  | inr differ ↦ ground (arith, contains-keep_if p a xs)
]

-- The kinds of `llvm-nm` for code, one letter each.
abbrev pub code_kinds : List ℕ
code_kinds = b'T' ∷ b't' ∷ b'W' ∷ b'w' ∷ []

abbrev is_one_of : List ℕ → ℕ → Bool
is_one_of [] c = false
is_one_of (d ∷ ds) c = (c == d) || is_one_of ds c

-- An address, a kind for code and this name.
abbrev pub names : Text → List Text → Bool
names s (address ∷ (kind ∷ []) ∷ name ∷ rest) = is_one_of code_kinds kind && text_eq name s
names s _ = false

-- A line of the listing defines the symbol as code.
unfoldable pub defines : Text → List Text → Bool
defines s [] = false
defines s (l ∷ ls) = names s (split_whitespace l) || defines s ls

-- A line of three fields or more has a kind of one letter.
abbrev HasKind : List Text → Type 0
HasKind (address ∷ (kind ∷ []) ∷ name ∷ rest) = Unit {0}
HasKind (address ∷ kind ∷ name ∷ rest) = ⊥
HasKind _ = Unit {0}

-- A listing as `llvm-nm` writes it.
abbrev pub IsListing : Text → Type 0
IsListing nm = All (λ l. HasKind (split_whitespace l)) (lines nm)

abbrev pub glue_functions : List Text
glue_functions =
    codes "bpf_arena_memcpy"
    ∷ codes "bpf_arena_memcmp"
    ∷ codes "bpf_arena_memset"
    ∷ codes "memset"
    ∷ []

abbrev gives : Text → Option Text → Bool
gives s none = false
gives s (some t) = text_eq t s

gives-if :
    (b : Bool) (s name : Text) → gives s (if b then some name else none) ≡ (b && text_eq name s)
gives-if true s name = refl
gives-if false s name = refl

code_kind : (kind : ℕ) → contains_str (codes "TtWw") (kind ∷ []) ≡ is_one_of code_kinds kind
unfolding contains_str starts_with
code_kind kind = ground arith

gives-code_symbol : (s : Text) (fs : List Text) → HasKind fs → gives s (code_symbol fs) ≡ names s fs
unfolding code_symbol
gives-code_symbol s [] h = refl
gives-code_symbol s (a ∷ []) h = refl
gives-code_symbol s (a ∷ [] ∷ []) h = refl
gives-code_symbol s (a ∷ (c ∷ []) ∷ []) h = refl
gives-code_symbol s (a ∷ (c ∷ d ∷ k) ∷ []) h = refl
gives-code_symbol s (a ∷ [] ∷ name ∷ rest) h = absurd h
gives-code_symbol s (a ∷ (kind ∷ []) ∷ name ∷ rest) h =
    gives-if (contains_str (codes "TtWw") (kind ∷ [])) s name
    ∙ ap (λ b. b && text_eq name s) (code_kind kind)
gives-code_symbol s (a ∷ (k ∷ l ∷ kind) ∷ name ∷ rest) h = absurd h

contains-next :
    (o : Option Text) (s : Text) (rest : List Text)
    → contains (elim o [ none ↦ rest | some y ↦ y ∷ rest ]) s ≡ (gives s o || contains rest s)
unfolding contains
contains-next none s rest = refl
contains-next (some y) s rest = refl

contains-filter_map :
    (s : Text) (ls : List Text)
    → All (λ l. HasKind (split_whitespace l)) ls
    → contains (filter_map nm_symbol ls) s ≡ defines s ls
unfolding contains defines nm_symbol
contains-filter_map s [] h = refl
contains-filter_map s (l ∷ ls) (k, h) =
    contains-next (nm_symbol l) s (filter_map nm_symbol ls)
    ∙ ap (λ b. b || contains (filter_map nm_symbol ls) s)
        (gives-code_symbol s (split_whitespace l) k)
    ∙ ap (λ b. names s (split_whitespace l) || b) (contains-filter_map s ls h)

is_glue_lem : (s : Text) → is_glue s ≡ among glue_functions s
unfolding is_glue
is_glue_lem s = ground arith

-- For a listing whose lines of three or more fields have a kind of one letter: the list of libarena's
-- symbols is strictly rising, and a symbol is in it exactly when it is the third field of a line whose
-- second field is T, t, W or w, and it is none of bpf_arena_memcpy, bpf_arena_memcmp,
-- bpf_arena_memset and memset.
pub arena_symbols_lem :
    (nm s : Text)
    → IsListing nm
    → IsRising (arena_symbols nm)
      × (contains (arena_symbols nm) s ≡ (defines s (lines nm) && not (among glue_functions s)))
unfolding arena_symbols
arena_symbols_lem nm s h = (
  dedup-IsRising _ (sort-IsSorted _),
  contains-dedup s _
      ∙ contains-sort s _
      ∙ contains-keep_if (λ t. not (is_glue t)) s _
      ∙ rw (contains-filter_map s (lines nm) h, is_glue_lem s) refl,
)

-- The list of what stays outlined is strictly rising and holds the kept symbols, the arena's, and
-- nothing else.
pub noinline_symbols_lem :
    (keep syms : List Text) (s : Text)
    → IsRising (noinline_symbols keep syms)
      × (contains (noinline_symbols keep syms) s ≡ (contains keep s || contains syms s))
unfolding noinline_symbols
noinline_symbols_lem keep syms s = (
  dedup-IsRising _ (sort-IsSorted _),
  contains-dedup s _ ∙ contains-sort s _ ∙ contains-append s keep syms,
)
