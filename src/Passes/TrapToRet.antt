-- ===== src/Passes/TrapToRet.antt =====
-- linker/scripts/trap_to_ret.py: `llvm.trap(); unreachable` becomes `ret <cookie>`. The texts that the
-- script gets are lines; the cookie is the text of the number.
pub mod Laws
pub mod Cleared
use libarena_rs.Common.{
  ℕ, zero, suc, ◌+◌, Bool, true, false, ◌&&◌, ◌||◌, Option, none, some, List, [], ◌∷◌, ◌++◌, Text,
  codes, text_eq, ltb, ◌==◌, if◌then◌else◌, is_nil, length, starts_with, split, join,
}
use libarena_rs.Passes.Pattern.{
  Class, Pattern, one, many, lazy, group, lit, match, matches, is_space, not_space, is_digit,
  not_newline, name_char, strip,
}

-- `[A-Za-z0-9_.$"]`
abbrev quoted_char : Class
quoted_char c = name_char c || (c == b'"')

-- `define\s.*?\s(\S+)\s@[A-Za-z0-9_.$"]+\(`
abbrev define_pattern : Pattern
define_pattern =
    lit (codes "define")
    ++ one is_space
      ∷ lazy not_newline
      ∷ one is_space
      ∷ group not_space
      ∷ one is_space
      ∷ one (λ c. c == b'@')
      ∷ one quoted_char
      ∷ many quoted_char
      ∷ lit (codes "(")

-- The return type on a line that begins a function.
unfoldable pub defined_type : Text → Option Text
unfolding match name_char
defined_type line = elim (match define_pattern none line) [
  | none ↦ none
  | some m ↦ elim m.0 [ [] ↦ none | ty ∷ _ ↦ some ty ]
]

-- `\s*(?:tail\s+)?call void @llvm\.trap\(\)`, with and without the option.
unfoldable pub is_trap : Text → Bool
unfolding match
is_trap line =
    matches
      (many is_space ∷ lit (codes "tail")
        ++ one is_space ∷ many is_space ∷ lit (codes "call void @llvm.trap()"))
      line
    || matches (many is_space ∷ lit (codes "call void @llvm.trap()")) line

unfoldable pub is_unreachable : Text → Bool
unfolding strip starts_with
is_unreachable line = starts_with (codes "unreachable") (strip line)

all_digits : Text → Bool
all_digits [] = true
all_digits (c ∷ s) = is_digit c && all_digits s

-- `re.fullmatch(r'i\d+', ty)`
unfoldable pub is_int : Text → Bool
unfolding all_digits
is_int (c ∷ d ∷ s) = (c == b'i') && all_digits (d ∷ s)
is_int _ = false

-- The type behind a line.
unfoldable pub type_after : Option Text → Text → Option Text
type_after ty line = elim (defined_type line) [ some new ↦ some new | none ↦ ty ]

-- The variables of the loop.
pub record State : Type 0 where
  pub out : List Text
  pub ret_ty : Option Text
  pub i : ℕ
  pub rewritten : ℕ

-- `lines[i]`
abbrev pub get : List Text → ℕ → Option Text
get [] i = none
get (l ∷ ls) zero = some l
get (l ∷ ls) (suc i) = get ls i

module _ (cookie : Text) where
  abbrev pub keep : Text → State → State
  keep line s = record s { out = s.out ++ line ∷ []; i = s.i + 1 }

  abbrev pub replace : Text → State → State
  replace line s = record s { out = s.out ++ line ∷ []; rewritten = s.rewritten + 1; i = s.i + 2 }

  -- A trap with `unreachable` behind it, in a function whose type is known.
  unfoldable pub rewrite_pair : Text → Text → State → State
  rewrite_pair line ty s =
      if text_eq ty (codes "void")
      then replace (codes "  ret void") s
      else if is_int ty
      then replace (codes "  ret " ++ (ty ++ 32 ∷ cookie)) s
      else keep line s

  -- What a round does once it knows whether a trap and `unreachable` stand at `i`.
  unfoldable pub round_on : Bool → Option Text → Text → State → State
  round_on false ty line s = keep line s
  round_on true none line s = keep line s
  round_on true (some ty) line s = rewrite_pair line ty s

  unfoldable pub unreachable_at : List Text → ℕ → Bool
  unreachable_at lines i = elim (get lines i) [ none ↦ false | some l ↦ is_unreachable l ]

  -- One round, on the line at `i`.
  unfoldable pub round : List Text → Text → State → State
  round lines line s =
      let ty = type_after s.ret_ty line in
      round_on (is_trap line && unreachable_at lines (s.i + 1)) ty line (record s { ret_ty = ty })

  -- `while i < len(lines)`; `none` if the fuel runs out.
  unfoldable pub loop : ℕ → List Text → State → Option State
  loop zero lines s = none
  loop (suc fuel) lines s = elim (get lines s.i) [
    | none ↦ some s
    | some line ↦ loop fuel lines (round lines line s)
  ]

  abbrev pub initial : State
  initial = record { out = []; ret_ty = none; i = 0; rewritten = 0 }

  -- The text that is written, and the number of traps.
  unfoldable pub trap_to_ret : ℕ → Text → Option (Text × ℕ)
  trap_to_ret fuel text = elim (loop fuel (split (λ c. c == 10) text) initial) [
    | none ↦ none
    | some s ↦ some (join (10 ∷ []) s.out, s.rewritten)
  ]
