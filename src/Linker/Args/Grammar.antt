-- ===== src/Linker/Args/Grammar.antt =====
-- The command line as a list of items, and what the items ask for.
use libarena_rs.Common.{◌≡◌, Option, some, List, [], ◌∷◌, ◌++◌, Text, last}
use libarena_rs.Linker.Args.{
  Parser, Setting, set_output, push_lib_dir, set_cpu, set_exports, Change, warn, push_input,
  push_joined_dir, set_joined_cpu, takes_next, alone, arm,
}

-- An argument that stands alone, or an option with the value behind it.
pub data Item : Type 0 where
  single : Change → Text → Item
  pair : Setting → Text → Text → Item

-- The item's words are read as this item.
abbrev pub IsItem : Item → Type 0
IsItem (single c a) = arm a ≡ alone c
IsItem (pair s a v) = arm a ≡ takes_next s

unfoldable pub render : List Item → List Text
render [] = []
render (single c a ∷ items) = a ∷ render items
render (pair s a v ∷ items) = a ∷ v ∷ render items

-- What each item contributes to each of the options.
abbrev pub input_of : Item → List Text
input_of (single push_input a) = a ∷ []
input_of _ = []

abbrev pub lib_dir_of : Item → List Text
lib_dir_of (single (push_joined_dir d) a) = d ∷ []
lib_dir_of (pair push_lib_dir a v) = v ∷ []
lib_dir_of _ = []

abbrev pub output_of : Item → List Text
output_of (pair set_output a v) = v ∷ []
output_of _ = []

abbrev pub cpu_of : Item → List Text
cpu_of (single (set_joined_cpu c) a) = c ∷ []
cpu_of (pair set_cpu a v) = v ∷ []
cpu_of _ = []

abbrev pub exports_of : Item → List Text
exports_of (pair set_exports a v) = v ∷ []
exports_of _ = []

abbrev pub warned_of : Item → List Text
warned_of (single warn a) = a ∷ []
warned_of _ = []

abbrev pub gather : (Item → List Text) → List Item → List Text
gather f [] = []
gather f (i ∷ items) = f i ++ gather f items

abbrev pub last_some : List Text → Option Text → Option Text
last_some [] d = d
last_some (x ∷ xs) d = last_some xs (some x)

-- The parser's state after the items: lists in the order of the arguments, and the last of the
-- values where one value counts.
abbrev pub meaning : List Item → Parser → Parser
meaning items p = record {
  opts = record {
    inputs = p.inputs ++ gather input_of items;
    lib_dirs = p.lib_dirs ++ gather lib_dir_of items;
    export_symbols = last_some (gather exports_of items) p.export_symbols;
    output = last (gather output_of items) p.output;
    cpu = last (gather cpu_of items) p.cpu;
  };
  warned = p.warned ++ gather warned_of items;
}
