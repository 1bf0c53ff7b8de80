-- ===== src/Linker/Symbols.antt =====
-- The symbol lists: what the linker reads from `llvm-nm`, and the lists that it writes.
pub mod Laws
use libarena_rs.Common.{
  Bool, true, false, not, ◌&&◌, ◌||◌, Option, none, some, List, [], ◌∷◌, ◌++◌, Text, codes, text_eq,
  starts_with, keep_if, split_whitespace, lines, contains, if◌then◌else◌,
}
use libarena_rs.Sort.{sort, dedup}

-- `text.contains(pattern)` on strings.
unfoldable pub contains_str : Text → Text → Bool
contains_str [] p = starts_with p []
contains_str (c ∷ s) p = starts_with p (c ∷ s) || contains_str s p

-- The third field of a line, where the second one is a type of defined code.
unfoldable pub code_symbol : List Text → Option Text
code_symbol (address ∷ kind ∷ name ∷ rest) =
    if contains_str (codes "TtWw") kind then some name else none
code_symbol _ = none

unfoldable pub nm_symbol : Text → Option Text
unfolding code_symbol contains_str starts_with split_whitespace
nm_symbol line = code_symbol (split_whitespace line)

-- The glue's memory functions, which are not kept apart.
unfoldable pub is_glue : Text → Bool
unfolding text_eq
is_glue s =
    text_eq s (codes "bpf_arena_memcpy")
    || text_eq s (codes "bpf_arena_memcmp")
    || text_eq s (codes "bpf_arena_memset")
    || text_eq s (codes "memset")

-- `Iterator::filter_map`.
abbrev pub filter_map : (Text → Option Text) → List Text → List Text
filter_map f [] = []
filter_map f (x ∷ xs) = elim (f x) [ none ↦ filter_map f xs | some y ↦ y ∷ filter_map f xs ]

-- `arena_syms`, from the output of `llvm-nm --defined-only`.
unfoldable pub arena_symbols : Text → List Text
arena_symbols nm = dedup (sort (keep_if (λ s. not (is_glue s)) (filter_map nm_symbol (lines nm))))

-- `noinline`: the symbols that are kept, and the arena's.
unfoldable pub noinline_symbols : List Text → List Text → List Text
noinline_symbols keep arena_syms = dedup (sort (keep ++ arena_syms))
