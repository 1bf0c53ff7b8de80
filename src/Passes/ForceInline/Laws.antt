-- ===== src/Passes/ForceInline/Laws.antt =====
-- What is inlined, with the list that the linker writes.
use libarena_rs.Common.{Bool, false, ◌||◌, [], ◌∷◌, Text, is_whitespace}

has_space : Text → Bool
has_space [] = false
has_space (c ∷ s) = is_whitespace c || has_space s
