-- ===== src/Linker/Pipeline/Failing.antt =====
-- A link stops at the first command that fails.
use libarena_rs.Common.{
  ◌≡◌, ℕ, suc, ◌||◌, List, [], ◌∷◌, ◌++◌, Text, codes, is_nil, ◌⊎◌, Bool-cases, inl, inr, text_eq,
}
use libarena_rs.Linker.Args.{Opts, Parser}
use libarena_rs.Linker.Args
use libarena_rs.Linker.Session.{Host, is_set, Session, Ran}
use libarena_rs.Linker.Session.Trace.{
  IsQuiet, IsQuiet-bind, IsQuiet-pure, IsQuiet-stop, IsQuiet-if, IsQuiet-eprintln, IsQuiet-when,
  IsQuiet-ask, IsQuiet-unwrap, IsQuiet-write_file, IsQuiet-remove_dir, IsQuiet-make_dir,
}
use libarena_rs.Linker.Session.Failing.{
  by_death, Stops, Stops-quiet, Stops-run-bind, Stops-bind, Stops-of_quiet, Stops-if, Succeeded,
  Failed,
}
use libarena_rs.Linker.Tools.{Tools, extract}
use libarena_rs.Linker.Tools.Laws.{find_tools-IsQuiet}
use libarena_rs.Linker.TrapMode.{ret, trap_mode, trap_mode_lem}
use libarena_rs.Linker.Pipeline.Order.Gather.{find_archive-IsQuiet}
use libarena_rs.Linker.Pipeline.Order.{prepare-IsQuiet, print_warnings-IsQuiet}
use libarena_rs.Linker.Pipeline.Stage.{Stage}
use libarena_rs.Linker.Pipeline.Run.{
  read_options, options_of, build_object, main, temporaries, input_bitcode, gather_inputs,
  gather_bitcode, list_symbols, link_bitcode, extra_symbols, make_keep_list, run_passes,
  run_pre_passes, run_internalize, run_force_inline, rewrite_traps, handle_traps, generate_code,
}

module _ (host : Host) (t : Tools) where
  extract-Stops : (archive dir : Text) → Stops by_death (extract host t archive dir)
  unfolding extract
  extract-Stops archive dir = Stops-quiet _ _ (IsQuiet-make_dir host _ _ (λ e. IsQuiet-stop _)) λ _.
      Stops-quiet _ _ (IsQuiet-ask host _) λ full.
        Stops-quiet _ _ (IsQuiet-unwrap host full) λ path. Stops-run-bind host _ _ λ _.
          Stops-of_quiet _ (
            IsQuiet-bind _ _ (IsQuiet-ask host _) λ r.
              IsQuiet-bind _ _ (IsQuiet-unwrap host r)
                λ es. IsQuiet-bind _ _ (IsQuiet-ask host _) λ ms. IsQuiet-pure _)

  module _ (tmp : Text) where
    input_bitcode-Stops : (i : ℕ) (inp : Text) → Stops by_death (input_bitcode host t tmp i inp)
    unfolding input_bitcode
    input_bitcode-Stops i inp = Stops-quiet _ _ (IsQuiet-ask host _) λ bitcode.
        Stops-quiet _ _ (IsQuiet-ask host _) λ archive.
          Stops-if bitcode _ _ (Stops-of_quiet _ (IsQuiet-pure _)) (
            Stops-if archive _ _ (extract-Stops inp _) (
              Stops-of_quiet _ (
                IsQuiet-bind _ _ (IsQuiet-when host _ _ (IsQuiet-eprintln host _))
                  λ _. IsQuiet-pure _)))

    gather_inputs-Stops :
        (i : ℕ) (inputs bcs : List Text) → Stops by_death (gather_inputs host t tmp i inputs bcs)
    unfolding gather_inputs
    gather_inputs-Stops i [] bcs = Stops-of_quiet _ (IsQuiet-pure _)
    gather_inputs-Stops i (inp ∷ rest) bcs =
        Stops-bind _ _ (input_bitcode-Stops i inp)
          λ found. gather_inputs-Stops (suc i) rest (bcs ++ found)

    gather_bitcode-Stops : (o : Opts) → Stops by_death (gather_bitcode host t tmp o)
    unfolding gather_bitcode
    gather_bitcode-Stops o = Stops-bind _ _ (gather_inputs-Stops 0 o.inputs []) λ rust_bcs.
        Stops-quiet _ _ (find_archive-IsQuiet host t tmp o.lib_dirs) λ archive.
          Stops-bind _ _ (extract-Stops archive _) λ arena_bcs.
            Stops-of_quiet _ (
              IsQuiet-if (is_nil rust_bcs || is_nil arena_bcs) _ _ (IsQuiet-stop _)
                (IsQuiet-pure _))

    list_symbols-Stops : (bcs : List Text) → Stops by_death (list_symbols host t tmp bcs)
    unfolding list_symbols
    list_symbols-Stops bcs =
        Stops-run-bind host _ _ λ out.
          Stops-of_quiet _ (IsQuiet-bind _ _ (IsQuiet-write_file host _ _) λ _. IsQuiet-pure _)

    link_bitcode-Stops :
        (rust_bcs arena_bcs : List Text)
        → Stops by_death (link_bitcode host t tmp rust_bcs arena_bcs)
    unfolding link_bitcode
    link_bitcode-Stops rust_bcs arena_bcs =
        Stops-run-bind host _ _ λ _. Stops-run-bind host _ _ λ _. Stops-of_quiet _ (IsQuiet-pure tt)

    make_keep_list-Stops :
        (o : Opts) (syms : List Text) → Stops by_death (make_keep_list host t tmp o syms)
    unfolding make_keep_list extra_symbols
    make_keep_list-Stops o syms =
        Stops-quiet _ _ (IsQuiet-bind _ _ (IsQuiet-ask host _) λ e. IsQuiet-pure _) λ extra.
          Stops-run-bind host _ _ λ out. Stops-of_quiet _ (
            IsQuiet-bind _ _ (IsQuiet-write_file host _ _)
              λ _. IsQuiet-bind _ _ (IsQuiet-write_file host _ _) λ _. IsQuiet-pure _)

    run_passes-Stops :
        (pass : Text → Stage) (ss : List Text) → Stops by_death (run_passes host t tmp pass ss)
    unfolding run_passes
    run_passes-Stops pass [] = Stops-of_quiet _ (IsQuiet-pure tt)
    run_passes-Stops pass (s ∷ ss) = Stops-run-bind host _ _ λ _. run_passes-Stops pass ss

    run_pre_passes-Stops : Stops by_death (run_pre_passes host t tmp)
    unfolding run_pre_passes
    run_pre_passes-Stops = Stops-run-bind host _ _ λ _. run_passes-Stops _ _

    run_internalize-Stops : (keep : List Text) → Stops by_death (run_internalize host t tmp keep)
    unfolding run_internalize
    run_internalize-Stops keep =
        Stops-run-bind host _ _ λ _. Stops-run-bind host _ _ λ _. Stops-of_quiet _ (IsQuiet-pure tt)

    run_force_inline-Stops : Stops by_death (run_force_inline host t tmp)
    unfolding run_force_inline
    run_force_inline-Stops =
        Stops-run-bind host _ _
          λ _. Stops-run-bind host _ _ λ _. Stops-run-bind host _ _ λ _. run_passes-Stops _ _

    rewrite_traps-Stops : (mode : Text) → Stops by_death (rewrite_traps host t tmp mode)
    unfolding rewrite_traps
    rewrite_traps-Stops mode = elim (Bool-cases (text_eq mode ret)) [
      | inl e ↦
          rw (rewrite_traps, e) (Stops-run-bind host _ _ λ _. Stops-of_quiet _ (IsQuiet-pure tt))
      | inr e ↦ rw (rewrite_traps, e) (Stops-of_quiet _ (IsQuiet-pure tt))
    ]

    trap_mode-IsQuiet : IsQuiet (trap_mode host)
    trap_mode-IsQuiet = record { at = λ s. let (_, _, quiet, _) = trap_mode_lem host s in quiet }

    handle_traps-Stops : Stops by_death (handle_traps host t tmp)
    unfolding handle_traps
    handle_traps-Stops = Stops-quiet _ _ trap_mode-IsQuiet λ mode.
        Stops-bind _ _ (rewrite_traps-Stops mode)
          λ _. Stops-run-bind host _ _ λ _. Stops-of_quiet _ (IsQuiet-pure tt)

    generate_code-Stops : (o : Opts) → Stops by_death (generate_code host t tmp o)
    unfolding generate_code
    generate_code-Stops o = Stops-run-bind host _ _ λ _.
        Stops-run-bind host _ _ λ _. Stops-run-bind host _ _ λ _. Stops-of_quiet _ (IsQuiet-pure tt)

    build_object-Stops : (o : Opts) → Stops by_death (build_object host t tmp o)
    unfolding build_object
    build_object-Stops o = Stops-bind _ _ (gather_bitcode-Stops o) λ bcs.
        Stops-bind _ _ (list_symbols-Stops bcs.1) λ syms.
          Stops-bind _ _ (link_bitcode-Stops bcs.0 bcs.1) λ _.
            Stops-bind _ _ (make_keep_list-Stops o syms) λ keep.
              Stops-bind _ _ run_pre_passes-Stops λ _.
                Stops-bind _ _ (run_internalize-Stops keep) λ _.
                  Stops-bind _ _ run_force_inline-Stops
                    λ _. Stops-bind _ _ handle_traps-Stops λ _. generate_code-Stops o

module _ (host : Host) where
  options_of-IsQuiet : (r : Args.Parsed Parser) → IsQuiet (options_of host r)
  unfolding options_of
  options_of-IsQuiet (Args.Parsed.ok q) =
      IsQuiet-bind _ _ (print_warnings-IsQuiet host q.warned) λ _. IsQuiet-pure _
  options_of-IsQuiet (Args.Parsed.die ws m) =
      IsQuiet-bind _ _ (print_warnings-IsQuiet host ws) λ _. IsQuiet-stop _

  main-Stops : Stops by_death (main host)
  unfolding main read_options
  main-Stops = Stops-quiet _ _ (IsQuiet-bind _ _ (IsQuiet-ask host _) options_of-IsQuiet) λ o.
      Stops-quiet _ _ (find_tools-IsQuiet host) λ t. Stops-quiet _ _ (prepare-IsQuiet host _) λ _.
        Stops-bind _ _ (build_object-Stops host t (temporaries o) o) λ _. Stops-of_quiet _ (
          IsQuiet-if (is_set host (codes "ARENA_LINKER_KEEP_TEMPS")) _ _ (IsQuiet-pure tt)
            (IsQuiet-remove_dir host _))

  -- However a link ends, the commands that it has run by `run` all succeeded, or the last of them
  -- failed, those before it succeeded, and the link died with a message: no command is run by `run`
  -- after one of these that failed.
  pub main_stops :
      (s : Session host.World)
      → (xs : List Ran) × ((main host s).1.ran ≡ s.ran ++ xs)
        × (Succeeded xs ⊎ Failed by_death (main host s).0 xs)
  main_stops s = main-Stops.at s
