-- ===== src/Passes/KeepSyms.antt =====
-- linker/scripts/keep_syms.py: the symbols that stay global, from the linked IR.
pub mod Laws
use libarena_rs.Common.{
  ℕ, Bool, true, false, not, ◌&&◌, ◌||◌, Option, none, some, List, [], ◌∷◌, ◌++◌, Text, codes,
  text_eq, ◌==◌, if◌then◌else◌, keep_if, contains, fields, list_file,
}
use libarena_rs.Sort.{sort, dedup}
use libarena_rs.Passes.Pattern.{
  Class, Pattern, one, many, lazy, group, boundary, not_ahead, lit, match, is_space, not_newline,
  name_char, find_all, first_groups,
}

-- `[^"]`
abbrev not_quote : Class
not_quote c = not (c == b'"')

-- `^define\s[^\n]*?@([A-Za-z0-9_.$]+)\([^\n]*?\bsection "[^"]+"`
abbrev pub function_pattern : Pattern
function_pattern =
    lit (codes "define")
    ++ one is_space
      ∷ lazy not_newline
      ∷ one (λ c. c == b'@')
      ∷ group name_char
      ∷ one (λ c. c == b'(')
      ∷ lazy not_newline
      ∷ boundary
      ∷ lit (codes "section \"")
    ++ one not_quote ∷ many not_quote ∷ lit (codes "\"")

-- `^@([A-Za-z0-9_.$]+) = [^\n]*?\bsection "([^"]+)"`
abbrev pub global_pattern : Pattern
global_pattern =
    one (λ c. c == b'@') ∷ group name_char ∷ lit (codes " = ")
    ++ lazy not_newline ∷ boundary ∷ lit (codes "section \"")
    ++ group not_quote ∷ lit (codes "\"")

-- `^define\s(?!internal\b|private\b)[^\n]*?\bvoid @([A-Za-z0-9_.$]+)\(`
abbrev pub void_pattern : Pattern
void_pattern =
    lit (codes "define")
    ++ one is_space
      ∷ not_ahead (codes "internal" ∷ codes "private" ∷ [])
      ∷ lazy not_newline
      ∷ boundary
      ∷ lit (codes "void @")
    ++ group name_char ∷ lit (codes "(")

-- Functions with a section.
unfoldable pub section_functions : Text → List Text
unfolding find_all
section_functions text = first_groups (find_all function_pattern text)

-- The first group of a match whose second one is not `llvm.metadata`.
abbrev pub loaded : List (List Text) → List Text
loaded [] = []
loaded ((name ∷ section ∷ gs) ∷ ms) =
    let rest = loaded ms in if text_eq section (codes "llvm.metadata") then rest else name ∷ rest
loaded (_ ∷ ms) = loaded ms

-- Global variables with a section other than llvm.metadata.
unfoldable pub section_globals : Text → List Text
unfolding find_all text_eq
section_globals text = loaded (find_all global_pattern text)

-- Externally visible functions that return void.
unfoldable pub void_functions : Text → List Text
unfolding find_all
void_functions text = first_groups (find_all void_pattern text)

-- The words of the file of `--nm-list`.
abbrev pub listed : Option Text → List Text
listed none = []
listed (some nm) = fields is_space nm

-- The set `keep`, in the order of `sorted`.
unfoldable pub keep_syms : Text → Option Text → List Text → Bool → List Text
keep_syms text nm extra drop_void_globals = dedup (
    sort (
      keep_if (λ s. not (drop_void_globals && contains (void_functions text) s))
        (extra ++ (section_functions text ++ (section_globals text ++ listed nm)))))

-- What the script prints.
abbrev pub output : Text → Option Text → List Text → Bool → Text
output text nm extra drop_void_globals = list_file (keep_syms text nm extra drop_void_globals)
