-- ===== src/Passes/Finalize/Returns/Laws.antt =====
-- No `unreachable` is left on the lines of bpf_finalize.py.
use libarena_rs.Common.{
  ℕ, ◌≡◌, true, false, none, some, List, [], ◌∷◌, ◌++◌, Text, codes, ◌≢◌, starts_with,
}
use libarena_rs.Passes.TrapToRet.{is_int}
use libarena_rs.Passes.Pattern.{is_space, not_newline}
use libarena_rs.Passes.Regex.{
  Regex, Groups, Found, Rest, ends_line, match_here, group_of, pair, group, boundary, line_end,
  empty, lit, many,
}
use libarena_rs.Passes.Regex.Laws.{IsOf}
use libarena_rs.Passes.Finalize.Returns.{unreachable_line, defined_return, debug_part}

-- A line that is an `unreachable`, with what stands around the word.
pub record IsUnreachable (l : Text) (g : Groups) : Type 0 where
  pub c : ℕ
  pub indent : Text
  pub rest : Text
  pub behind : Text
  pub spaces : IsOf is_space (c ∷ indent)
  pub on_line : IsOf not_newline rest
  pub ends : ends_line behind ≡ true
  pub line : l ≡ (c ∷ indent) ++ (codes "unreachable" ++ (rest ++ behind))
  pub first : group_of 1 g ≡ c ∷ indent
  pub second : group_of 2 g ≡ rest

abbrev found_there : Rest
found_there p h t = some (h, t)

-- The parts of the expression, from the end.
abbrev at_end : Regex
at_end = pair line_end empty

abbrev with_rest : Regex
with_rest = pair (group 2 (many not_newline)) at_end

abbrev at_word_end : Regex
at_word_end = pair boundary with_rest

abbrev with_word : Regex
with_word = pair (lit (codes "unreachable")) at_word_end

-- The zero that a return of the type has.
pub data IsZero (ty : Text) : Text → Type 0 where
  of_void : ty ≡ codes "void" → IsZero ty []
  of_integer : is_int ty ≡ true → ty ≢ codes "void" → IsZero ty (codes " 0")
  of_pointer :
      starts_with (codes "ptr") ty ≡ true
      → ty ≢ codes "void"
      → is_int ty ≡ false
      → IsZero ty (codes " null")
  of_other :
      ty ≢ codes "void"
      → is_int ty ≡ false
      → starts_with (codes "ptr") ty ≡ false
      → IsZero ty (codes " zeroinitializer")

-- What the loop makes of one line, in a function of this type.
pub record IsChanged (ty l l' : Text) : Type 0 where
  pub cleared : match_here unreachable_line none l' ≡ none
  pub same_type : (t : Text) → defined_return t l' ≡ defined_return t l
  pub others : match_here unreachable_line none l ≡ none → l' ≡ l
  pub returns :
      (m : Found)
      → match_here unreachable_line none l ≡ some m
      → (indent rest behind zero : Text) × IsZero ty zero
        × IsOf is_space indent
        × IsOf not_newline rest
        × (ends_line behind ≡ true)
        × (l ≡ indent ++ (codes "unreachable" ++ (rest ++ behind)))
        × (l' ≡ indent ++ (codes "ret " ++ (ty ++ (zero ++ debug_part rest))))

-- The lines one by one, with the type of the function defined last.
pub data AreReturned : Text → List Text → List Text → Type 0 where
  no_lines : {ty : Text} → AreReturned ty [] []
  line :
      {ty l l' : Text} {ls ls' : List Text}
      → IsChanged (defined_return ty l) l l'
      → AreReturned (defined_return ty l) ls ls'
      → AreReturned ty (l ∷ ls) (l' ∷ ls')
