-- ===== src/Linker/Args.antt =====
-- `Opts` and `parse_args` of linker/src/main.rs: response files, then the options.
pub mod Grammar
pub mod Spelling
pub mod Laws
pub mod ResponseFiles
use libarena_rs.Common.{
  Bool, true, false, Option, none, some, List, [], ◌∷◌, ◌++◌, Text, codes, text_eq, strip_prefix,
  is_nil, if◌then◌else◌, split_whitespace, ◌||◌,
}

pub record Opts : Type 0 where
  pub inputs : List Text
  pub lib_dirs : List Text
  pub export_symbols : Option Text
  pub output : Text
  pub cpu : Text

-- The options being filled in, and the flags that a message was printed for.
pub record Parser : Type 0 where
  pub opts : Opts
  pub open opts use *
  pub warned : List Text

-- `die` with its message, behind the flags that a message was printed for, or a value.
pub data Parsed {ℓ} (A : Type ℓ) : Type ℓ where
  ok : A → Parsed A
  die : List Text → Text → Parsed A

-- The result of reading a response file: its text, or the message of the error.
pub data Reading : Type 0 where
  text : Text → Reading
  failure : Text → Reading

-- What an option does with the value behind it, and what one without a value does.
pub data Setting : Type 0 where
  set_output push_lib_dir skip_lib set_cpu skip_features set_exports : Setting

pub data Change : Type 0 where
  ignore warn push_input : Change
  push_joined_dir set_joined_cpu : Text → Change

pub data Arm : Type 0 where
  takes_next : Setting → Arm
  alone : Change → Arm

is_noise : Text → Bool
unfolding text_eq
is_noise a =
    text_eq a (codes "--debug")
    || text_eq a (codes "-O0")
    || text_eq a (codes "-O1")
    || text_eq a (codes "-O2")
    || text_eq a (codes "-O3")
    || text_eq a (codes "-Os")
    || text_eq a (codes "-Oz")

-- The last four arms of the match: `-L`, `-l` and `--cpu=` joined to a value, any other flag, and
-- an input.
prefix_arm : Text → Arm
unfolding strip_prefix
prefix_arm a = elim (strip_prefix (codes "-L") a) [
  | some dir ↦ alone (push_joined_dir dir)
  | none ↦ elim (strip_prefix (codes "-l") a) [
    | some _ ↦ alone ignore
    | none ↦ elim (strip_prefix (codes "--cpu=") a) [
      | some cpu ↦ alone (set_joined_cpu cpu)
      | none ↦ elim (strip_prefix (codes "-") a) [ some _ ↦ alone warn | none ↦ alone push_input ]
    ]
  ]
]

-- The arm of `match a.as_str()` that an argument takes.
unfoldable pub arm : Text → Arm
unfolding is_noise prefix_arm
arm a =
    if text_eq a (codes "-o")
    then takes_next set_output
    else if text_eq a (codes "-L")
    then takes_next push_lib_dir
    else if text_eq a (codes "-l")
    then takes_next skip_lib
    else if text_eq a (codes "--cpu")
    then takes_next set_cpu
    else if text_eq a (codes "--cpu-features")
    then takes_next skip_features
    else if text_eq a (codes "--export-symbols")
    then takes_next set_exports
    else if is_noise a
    then alone ignore
    else prefix_arm a

abbrev pub set_value : Setting → Text → Parser → Parser
set_value set_output v p = record p { opts = record p.opts { output = v } }
set_value push_lib_dir v p = record p { opts = record p.opts { lib_dirs = p.lib_dirs ++ v ∷ [] } }
set_value skip_lib v p = p
set_value set_cpu v p = record p { opts = record p.opts { cpu = v } }
set_value skip_features v p = p
set_value set_exports v p = record p { opts = record p.opts { export_symbols = some v } }

abbrev pub apply_change : Change → Text → Parser → Parser
apply_change ignore a p = p
apply_change warn a p = record p { warned = p.warned ++ a ∷ [] }
apply_change push_input a p = record p { opts = record p.opts { inputs = p.inputs ++ a ∷ [] } }
apply_change (push_joined_dir d) a p = record p {
  opts = record p.opts { lib_dirs = p.lib_dirs ++ d ∷ [] };
}
apply_change (set_joined_cpu c) a p = record p { opts = record p.opts { cpu = c } }

abbrev pub missing_value : Text
missing_value = codes "missing argument value"

abbrev pub no_output : Text
no_output = codes "no -o output"

-- `while let Some(a) = it.next()`; `next()` in an arm takes the argument behind it.
unfoldable pub parse_loop : List Text → Parser → Parsed Parser
parse_loop [] p = ok p
parse_loop (a ∷ []) p = elim (arm a) [
  | takes_next s ↦ die p.warned missing_value
  | alone c ↦ ok (apply_change c a p)
]
parse_loop (a ∷ v ∷ rest) p = elim (arm a) [
  | takes_next s ↦ parse_loop rest (set_value s v p)
  | alone c ↦ parse_loop (v ∷ rest) (apply_change c a p)
]

abbrev pub initial : Parser
initial = record {
  opts = record {
    inputs = [];
    lib_dirs = [];
    export_symbols = none;
    output = [];
    cpu = codes "v4";
  };
  warned = [];
}

abbrev pub check_output : Parsed Parser → Parsed Parser
check_output (ok p) = if is_nil p.output then die p.warned no_output else ok p
check_output (die ws m) = die ws m

-- The arguments with each `@file` replaced by the words of the file.
unfoldable pub expand : (Text → Reading) → List Text → Parsed (List Text)
unfolding strip_prefix
expand read [] = ok []
expand read (a ∷ args) = elim (strip_prefix (codes "@") a) [
  | none ↦ elim (expand read args) [ ok more ↦ ok (a ∷ more) | die ws m ↦ die ws m ]
  | some f ↦ elim (read f) [
    | failure e ↦ die [] (f ++ (codes ": " ++ e))
    | text t ↦ elim (expand read args) [
      | ok more ↦ ok (split_whitespace t ++ more)
      | die ws m ↦ die ws m
    ]
  ]
]

-- The whole of `parse_args`, from the arguments behind the program's name.
unfoldable pub parse_args : (Text → Reading) → List Text → Parsed Parser
unfolding expand parse_loop
parse_args read args = elim (expand read args) [
  | ok expanded ↦ check_output (parse_loop expanded initial)
  | die ws m ↦ die ws m
]
