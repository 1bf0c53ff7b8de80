-- ===== src/Passes/KeepSyms/Laws.antt =====
-- The list that keep_syms.py prints, as the linker reads it.
use libarena_rs.Common.{◌≡◌, ◌∷◌, ◌++◌, ◌∷◌, ◌++◌, arith, Text, codes, is_whitespace}
use libarena_rs.Passes.Pattern.{name_char, Pattern}
use libarena_rs.Passes.Pattern.Names.{Avoids}
use libarena_rs.Passes.KeepSyms.{void_functions}

-- A name holds no white space.
pub name_char-Avoids : Avoids is_whitespace name_char
unfolding name_char is_whitespace
name_char-Avoids c h = ground (arith, h)

-- The functions defined as internal or private are not externally visible.
abbrev pub IsHidden : Text → Text → Type 0
IsHidden line text =
    (void_functions ((codes "define internal " ++ line) ++ 10 ∷ text) ≡ void_functions text)
    × (void_functions ((codes "define private " ++ line) ++ 10 ∷ text) ≡ void_functions text)
