-- ===== src/Passes/Finalize/Returns/Debug.antt =====
-- The debug reference of a line, as the compiler writes it.
use libarena_rs.Common.{ℕ, ◌-◌, length, ◌≡◌, refl, ap, none, some, [], ◌∷◌, ◌++◌, Text, codes}
use libarena_rs.Passes.Bytes.{take}
use libarena_rs.Passes.Pattern.{is_space, is_digit}
use libarena_rs.Passes.Regex.{
  Regex, Rest, empty, pair, lit, some_of, match, match_here, search_from,
}
use libarena_rs.Passes.Regex.Laws.{IsOf, take_to_end, match-some_of, match-many_one, match-some_one}
use libarena_rs.Passes.Finalize.Returns.{debug_reference, debug_part}

-- `, !dbg !` and a number.
abbrev pub written_reference : ℕ → Text → Text
written_reference d ds = codes ", !dbg !" ++ d ∷ ds

abbrev kept : Text → Rest
kept s prev h t = some ((1, take (length s - length t) s) ∷ h, t)

abbrev last_part : Regex
last_part = pair (some_of is_digit) empty

abbrev from_space : Regex
from_space = pair (some_of is_space) (pair (lit (codes "!")) last_part)

abbrev from_name : Regex
from_name = pair (lit (codes "!dbg")) from_space

match-reference :
    (d : ℕ) (ds : Text)
    → IsOf is_digit (d ∷ ds)
    → match_here debug_reference none (written_reference d ds)
      ≡ some ((1, written_reference d ds) ∷ [], [])
unfolding match_here match
match-reference d ds h =
    let s = written_reference d ds in
    match-many_one is_space (match from_name (kept s)) (some b',') [] 32 33
      (codes "dbg !" ++ d ∷ ds) _ refl refl
      (match-some_one is_space (match (pair (lit (codes "!")) last_part) (kept s)) (some b'g') [] 32
        33 (d ∷ ds) _ refl refl
        (match-some_of is_digit (match empty (kept s)) (some 33) [] d ds _ h
          (λ q. ap (λ x. some ((1, x) ∷ [], [])) (take_to_end s))))

pub debug_part_lem :
    (d : ℕ) (ds : Text)
    → IsOf is_digit (d ∷ ds)
    → debug_part (written_reference d ds) ≡ written_reference d ds
unfolding debug_part search_from
debug_part_lem d ds h = rw (debug_part, search_from, match-reference d ds h) refl
