-- ===== src/Tests/Args.antt =====
-- Command lines and symbol lists.
use libarena_rs.Common.{
  among, split_whitespace, fields, is_whitespace, ◌≡◌, refl, ◌⊎◌, ◌&&◌, not, none, List, [], ◌∷◌,
  ◌++◌, Text, codes, strip_prefix, text_eq, list_file, is_whitespace, contains, lines,
}
use libarena_rs.Sort.{IsRising, sort, dedup}
use libarena_rs.Linker.Args.{
  Parser, ok, die, Reading, text, failure, parse_args, expand, arm, missing_value,
}
use libarena_rs.Linker.Args.Laws.{died_of, Whole, Dangling, outcome, parse_args_cases}
use libarena_rs.Linker.Args.ResponseFiles.{parse_args_response_file}
use libarena_rs.Linker.Symbols.{arena_symbols, nm_symbol, is_glue}
use libarena_rs.Linker.Symbols.Laws.{glue_functions, arena_symbols_lem, defines}

abbrev no_files : Text → Reading
no_files f = failure (codes "not found")

abbrev words_file : Text → Reading
words_file f = text (list_file (codes "-o" ∷ codes "out" ∷ []))

abbrev call : List Text
call =
    codes "a.bc"
    ∷ codes "-L"
    ∷ codes "lib"
    ∷ codes "--cpu=v3"
    ∷ codes "-Lmore"
    ∷ codes "-x"
    ∷ codes "-o"
    ∷ codes "out"
    ∷ codes "-O3"
    ∷ codes "b.rlib"
    ∷ []

abbrev parsed_call : Parser
parsed_call = record {
  opts = record {
    inputs = codes "a.bc" ∷ codes "b.rlib" ∷ [];
    lib_dirs = codes "lib" ∷ codes "more" ∷ [];
    export_symbols = none;
    output = codes "out";
    cpu = codes "v3";
  };
  warned = codes "-x" ∷ [];
}

parse_call : parse_args no_files call ≡ ok parsed_call
unfolding parse_args arm text_eq
parse_call = refl

parse_dangling : parse_args no_files (codes "a" ∷ codes "--cpu" ∷ []) ≡ die [] missing_value
unfolding parse_args arm text_eq
parse_dangling = refl

expand-call : expand no_files call ≡ ok call
unfolding expand
expand-call = refl

parse_args_cases_example :
    ((w : Whole call) × (parse_args no_files call ≡ outcome w.items))
    ⊎ ((d : Dangling call) × (parse_args no_files call ≡ died_of d.items))
parse_args_cases_example = parse_args_cases no_files call call expand-call

parse_args_response_file_example :
    expand words_file (codes "a.bc" ∷ codes "@args" ∷ codes "-O3" ∷ [])
    ≡ ok (codes "a.bc" ∷ codes "-o" ∷ codes "out" ∷ codes "-O3" ∷ [])
unfolding strip_prefix is_whitespace
parse_args_response_file_example =
    parse_args_response_file words_file (codes "a.bc" ∷ []) (codes "-O3" ∷ [])
      (codes "-o" ∷ codes "out" ∷ []) (codes "args") refl
      (((refl, (refl, tt)), refl), (((refl, (refl, (refl, tt))), refl), tt)) (refl, tt) (refl, tt)

-- As `llvm-nm` lists two bitcode files.
abbrev listing : Text
listing =
    codes "\ncommon.bc:\n---------------- T arena_malloc\n---------------- t helper\n"
    ++ codes "---------------- D table\n\nglue.bc:\n---------------- t bpf_arena_memcpy\n"
    ++ codes "---------------- T arena_free_u64\n---------------- T arena_malloc\n"

listed : arena_symbols listing ≡ codes "arena_free_u64" ∷ codes "arena_malloc" ∷ codes "helper" ∷ []
unfolding arena_symbols nm_symbol is_glue lines sort dedup
listed = refl

arena_symbols_lem_example :
    IsRising (arena_symbols listing)
    × (contains (arena_symbols listing) (codes "helper")
        ≡ (defines (codes "helper") (lines listing) && not (among glue_functions (codes "helper"))))
arena_symbols_lem_example = arena_symbols_lem listing (codes "helper") (
    unfold lines split_whitespace fields is_whitespace in
    (tt, (tt, (tt, (tt, (tt, (tt, (tt, (tt, (tt, (tt, tt)))))))))))
