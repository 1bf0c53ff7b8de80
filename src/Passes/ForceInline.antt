-- ===== src/Passes/ForceInline.antt =====
-- linker/scripts/force_inline.py: the functions that `opt` is told to inline everywhere.
pub mod Laws
use libarena_rs.Common.{
  ℕ, zero, suc, ◌-◌, Bool, true, false, not, ◌&&◌, ◌||◌, Option, none, some, List, [], ◌∷◌, ◌++◌,
  map, Text, codes, ◌==◌, if◌then◌else◌, keep_if, contains, fields, join, length,
}
use libarena_rs.Passes.Pattern.{
  Class, Pattern, one, many, lazy, group, maybe, mark, boundary, lit, match, is_space, is_digit,
  not_newline, name_char, find_all, first_groups,
}

-- `^(attributes #\d+ = \{[^}]*?) ?\bnoinline\b`
abbrev noinline_pattern : Pattern
noinline_pattern =
    lit (codes "attributes #")
    ++ one is_digit ∷ many is_digit ∷ lit (codes " = {")
    ++ lazy (λ c. not (c == b'}')) ∷ mark ∷ maybe (λ c. c == 32) ∷ boundary ∷ lit (codes "noinline")
    ++ boundary ∷ []

-- `re.sub` of a pattern by its group, from a place that begins a line or not, with characters of the
-- last match that stay, and then some that go.
unfoldable pub sub_from : Pattern → Bool → ℕ → ℕ → Text → Text
unfolding match
sub_from p start keep drop [] = []
sub_from p start (suc keep) drop (c ∷ s) = c ∷ sub_from p (c == 10) keep drop s
sub_from p start zero (suc drop) (c ∷ s) = sub_from p (c == 10) zero drop s
sub_from p false zero zero (c ∷ s) = c ∷ sub_from p (c == 10) zero zero s
sub_from p true zero zero (c ∷ s) = elim (match p none (c ∷ s)) [
  | none ↦ c ∷ sub_from p (c == 10) zero zero s
  | some (behind ∷ gs, rest) ↦
      c ∷ sub_from p (c == 10) (length s - length behind) (length behind - length rest) s
  | some ([], rest) ↦ c ∷ sub_from p (c == 10) zero zero s
]

-- `noinline` is stripped from each group of attributes, once.
unfoldable pub strip_noinline : Text → Text
unfolding sub_from
strip_noinline text = sub_from noinline_pattern true zero zero text

-- `^define\s[^\n]*?@([A-Za-z0-9_.$]+)\(`
abbrev pub define_pattern : Pattern
define_pattern =
    lit (codes "define")
    ++ one is_space ∷ lazy not_newline ∷ one (λ c. c == b'@') ∷ group name_char ∷ lit (codes "(")

-- The names of the functions that a module defines.
unfoldable pub defined_names : Text → List Text
unfolding find_all
defined_names text = first_groups (find_all define_pattern text)

abbrev pub attribute : Text → Text
attribute name = codes "--force-attribute=" ++ (name ++ codes ":alwaysinline")

-- The functions that are not in the file of names to keep.
unfoldable pub inlined : Text → Text → List Text
inlined text keep_file =
    keep_if (λ name. not (contains (fields is_space keep_file) name))
      (defined_names (strip_noinline text))

-- The module that is written, and the line that is printed.
unfoldable pub force_inline : Text → Text → Text × Text
force_inline text keep_file =
    (strip_noinline text, join (32 ∷ []) (map attribute (inlined text keep_file)) ++ 10 ∷ [])
