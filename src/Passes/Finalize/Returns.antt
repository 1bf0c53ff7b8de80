-- ===== src/Passes/Finalize/Returns.antt =====
-- bpf_finalize.py: the loop over the lines, where `unreachable` becomes a return.
pub mod Debug
pub mod Laws
use libarena_rs.Common.{
  ℕ, Bool, not, Option, none, some, List, [], ◌∷◌, ◌++◌, Text, codes, text_eq, starts_with, ◌==◌,
  ◌||◌, if◌then◌else◌,
}
use libarena_rs.Passes.Pattern.{Class, is_space, is_digit, not_space, not_newline, name_char}
use libarena_rs.Passes.Regex.{
  Regex, char, lazy_star, group, line_start, line_end, boundary, seq, lit, many, some_of, Found,
  Groups, match_here, search_from, group_of,
}
use libarena_rs.Passes.TrapToRet.{is_int}

-- `^define\s.*?\s(\S+)\s@[A-Za-z0-9_.$"]+\(`
unfoldable pub define_line : Regex
unfolding name_char
define_line = seq (
    line_start
    ∷ lit (codes "define")
    ∷ char is_space
    ∷ lazy_star (char not_newline)
    ∷ char is_space
    ∷ group 1 (some_of not_space)
    ∷ char is_space
    ∷ lit (codes "@")
    ∷ some_of (λ c. name_char c || (c == b'"'))
    ∷ lit (codes "(")
    ∷ [])

-- `^(\s+)unreachable\b(.*)$`
unfoldable pub unreachable_line : Regex
unreachable_line = seq (
    line_start
    ∷ group 1 (some_of is_space)
    ∷ lit (codes "unreachable")
    ∷ boundary
    ∷ group 2 (many not_newline)
    ∷ line_end
    ∷ [])

unfoldable pub defined_return : Text → Text → Text
unfolding match_here define_line
defined_return ty line = elim (match_here define_line none line) [
  | none ↦ ty
  | some m ↦ group_of 1 m.0
]

-- `(,\s*!dbg\s+!\d+)`
abbrev pub debug_reference : Regex
debug_reference = group 1 (
    seq (
      lit (codes ",")
      ∷ many is_space
      ∷ lit (codes "!dbg")
      ∷ some_of is_space
      ∷ lit (codes "!")
      ∷ some_of is_digit
      ∷ []))

unfoldable pub debug_part : Text → Text
unfolding search_from
debug_part rest = elim (search_from debug_reference none rest) [
  | none ↦ []
  | some m ↦ group_of 1 m.0
]

-- The zero of a type.
unfoldable pub zero_of : Text → Text
unfolding text_eq is_int starts_with
zero_of ty =
    if text_eq ty (codes "void")
    then []
    else if is_int ty
    then codes " 0"
    else if starts_with (codes "ptr") ty
    then codes " null"
    else codes " zeroinitializer"

unfoldable pub return_line : Text → Groups → Text
unfolding zero_of debug_part
return_line ty g =
    group_of 1 g ++ (codes "ret " ++ (ty ++ (zero_of ty ++ debug_part (group_of 2 g))))

unfoldable pub changed_line : Text → Text → Text
unfolding match_here unreachable_line return_line
changed_line ty line = elim (match_here unreachable_line none line) [
  | none ↦ line
  | some m ↦ return_line ty m.0
]

-- The loop, from the type of the function that was defined last.
unfoldable pub return_lines : Text → List Text → List Text
unfolding defined_return changed_line
return_lines ty [] = []
return_lines ty (l ∷ ls) = let new = defined_return ty l in changed_line new l ∷ return_lines new ls
