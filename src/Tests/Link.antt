-- ===== src/Tests/Link.antt =====
-- A link over a small operating system in which every file is there and every command succeeds.
use libarena_rs.Common.{
  contains, starts_with, ◌≡◌, refl, ◌⊎◌, true, false, Option, none, some, List, [], ◌∷◌, ◌++◌, Text,
  codes, text_eq, if◌then◌else◌, join_path,
}
use libarena_rs.Linker.Args.{failure, Opts, parse_args, arm}
use libarena_rs.Linker.Session.{Host, Session, ok, Ran, ended, is_bitcode}
use libarena_rs.Linker.TrapMode.{ModeOf, trap_mode, trap_mode_lem}
use libarena_rs.Linker.Session.Returning.{Serves}
use libarena_rs.Linker.Session.Failing.{by_death, Succeeded, Failed}
use libarena_rs.Linker.Pipeline.Failing.{main_stops}
use libarena_rs.Linker.Pipeline.Returning.{main_returns}
use libarena_rs.Linker.Pipeline.Returning.Gather.{HoldsBitcode, HasBitcode}
use libarena_rs.Linker.Args
use libarena_rs.Linker.Pipeline.Run.{main, input_bitcode}

abbrev environment : Text → Option Text
environment name = if text_eq name (codes "TRAP_MODE") then some (codes "ret") else none

abbrev pub mock : Host
mock = record {
  World = Unit {0};
  args = codes "a.bc" ∷ codes "-o" ∷ codes "out" ∷ codes "-L" ∷ codes "lib" ∷ [];
  env_var = environment;
  read = λ w p. some (0x42 ∷ 0x43 ∷ 0xc0 ∷ 0xde ∷ []);
  read_to_string = λ w p. failure (codes "none");
  exists = λ w p. true;
  canonicalize = λ w p. some p;
  read_dir = λ w p. some ((p ++ codes "/m.bc") ∷ []);
  remove_dir_all = λ w p. w;
  create_dir_all = λ w p. (none, w);
  write = λ w p t. (true, w);
  output = λ w c. (ended (record { success = true; stdout = []; stderr = [] }), w);
  show_command = λ c. c.program;
  show_program = λ c. c.program;
  script_body = λ n. [];
}

abbrev pub start : Session (Unit {0})
start = record { world = tt; ran = []; printed = [] }

pub mock-Serves : Serves mock
mock-Serves = record {
  written = λ w path text. refl;
  made = λ w path. refl;
  resolved = λ w path. (path, refl);
  listed = λ w dir. ((dir ++ codes "/m.bc") ∷ [], refl);
  succeeds = λ w c. (record { success = true; stdout = []; stderr = [] }, refl, refl);
}

abbrev mock_opts : Opts
mock_opts = record {
  inputs = codes "a.bc" ∷ [];
  lib_dirs = codes "lib" ∷ [];
  export_symbols = none;
  output = codes "out";
  cpu = codes "v4";
}

mock_parses :
    parse_args (mock.read_to_string tt) mock.args
    ≡ Args.Parsed.ok (record { opts = mock_opts; warned = [] })
unfolding parse_args arm text_eq
mock_parses = refl

mock_members : HoldsBitcode mock (codes "out.arena-linker/arena_c")
unfolding is_bitcode contains text_eq starts_with
mock_members = record {
  member = codes "out.arena-linker/arena_c/m.bc";
  lists = λ w entries e.
      let found : codes "out.arena-linker/arena_c/m.bc" ∷ [] ≡ entries = cc e in rw (← found) refl;
  bitcode = λ w. refl;
}

mock-HasBitcode : HasBitcode mock mock_opts
unfolding is_bitcode contains text_eq join_path starts_with
mock-HasBitcode = record {
  input = codes "a.bc";
  is_input = refl;
  input_bitcode = λ w. refl;
  lib_dir = codes "lib";
  is_lib_dir = refl;
  has_archive = λ w. refl;
  members = mock_members;
}

main_returns_example : (main mock start).0 ≡ ok tt
main_returns_example =
    main_returns mock mock-Serves start (record { opts = mock_opts; warned = [] }) mock_parses
      mock-HasBitcode

-- The same, but no command succeeds.
abbrev failing : Host
failing = record mock {
  output = λ w c. (ended (record { success = false; stdout = []; stderr = codes "no" }), w);
}

main_stops_example :
    (xs : List Ran) × ((main failing start).1.ran ≡ [] ++ xs)
    × (Succeeded xs ⊎ Failed by_death (main failing start).0 xs)
main_stops_example = main_stops failing start

trap_mode_lem_example :
    (m : Text) × ((trap_mode mock start).0 ≡ ok m)
    × ((trap_mode mock start).1.ran ≡ start.ran)
    × ModeOf mock start.world m
trap_mode_lem_example = trap_mode_lem mock start
