-- ===== src/Linker/Pipeline/Returning/Sections.antt =====
-- The sections of `main` behind that return.
use libarena_rs.Common.{List, [], ◌∷◌, Text, text_eq, Bool-cases, inl, inr}
use libarena_rs.Linker.Args.{Opts}
use libarena_rs.Linker.Session.{Host}
use libarena_rs.Linker.Session.Returning.{
  Finishes, Serves, Finishes-pure, Finishes-bind, Finishes-eprintln, Finishes-ask,
  Finishes-remove_dir, Finishes-write_file, Finishes-make_dir, Finishes-run,
}
use libarena_rs.Linker.Tools.{Tools}
use libarena_rs.Linker.TrapMode.{ret, trap_mode, trap_mode_lem}
use libarena_rs.Linker.Pipeline.Stage.{Stage}
use libarena_rs.Linker.Pipeline.Run.{
  print_warnings, prepare, write_scripts, list_symbols, link_bitcode, extra_symbols, make_keep_list,
  run_passes, run_pre_passes, run_internalize, run_force_inline, rewrite_traps, handle_traps,
  generate_code,
}

module _ (host : Host) (serves : Serves host) where
  pub print_warnings-Finishes : (ss : List Text) → Finishes (print_warnings host ss)
  unfolding print_warnings
  print_warnings-Finishes [] = Finishes-pure tt
  print_warnings-Finishes (s ∷ ss) =
      Finishes-bind _ _ (Finishes-eprintln host _) (λ _. print_warnings-Finishes ss)

  write_scripts-Finishes :
      (dir : Text) (names : List Text) → Finishes (write_scripts host dir names)
  unfolding write_scripts
  write_scripts-Finishes dir [] = Finishes-pure tt
  write_scripts-Finishes dir (n ∷ names) =
      Finishes-bind _ _ (Finishes-write_file host serves _ _)
        (λ _. write_scripts-Finishes dir names)

  pub prepare-Finishes : (tmp : Text) → Finishes (prepare host tmp)
  unfolding prepare
  prepare-Finishes tmp = Finishes-bind _ _ (Finishes-remove_dir host _) λ _.
      Finishes-bind _ _ (Finishes-make_dir host serves _ _)
        λ _. Finishes-bind _ _ (Finishes-make_dir host serves _ _) λ _. write_scripts-Finishes _ _

  module _ (t : Tools) (tmp : Text) where
    run_passes-Finishes :
        (pass : Text → Stage) (ss : List Text) → Finishes (run_passes host t tmp pass ss)
    unfolding run_passes
    run_passes-Finishes pass [] = Finishes-pure tt
    run_passes-Finishes pass (s ∷ ss) =
        Finishes-bind _ _ (Finishes-run host serves _) λ _. run_passes-Finishes pass ss

    pub list_symbols-Finishes : (bcs : List Text) → Finishes (list_symbols host t tmp bcs)
    unfolding list_symbols
    list_symbols-Finishes bcs =
        Finishes-bind _ _ (Finishes-run host serves _)
          λ out. Finishes-bind _ _ (Finishes-write_file host serves _ _) λ _. Finishes-pure _

    pub link_bitcode-Finishes :
        (rust_bcs arena_bcs : List Text) → Finishes (link_bitcode host t tmp rust_bcs arena_bcs)
    unfolding link_bitcode
    link_bitcode-Finishes rust_bcs arena_bcs =
        Finishes-bind _ _ (Finishes-run host serves _)
          λ _. Finishes-bind _ _ (Finishes-run host serves _) λ _. Finishes-pure tt

    extra_symbols-Finishes : (o : Opts) → Finishes (extra_symbols host t tmp o)
    unfolding extra_symbols
    extra_symbols-Finishes o = Finishes-bind _ _ (Finishes-ask host _) λ e. Finishes-pure _

    pub make_keep_list-Finishes :
        (o : Opts) (syms : List Text) → Finishes (make_keep_list host t tmp o syms)
    unfolding make_keep_list
    make_keep_list-Finishes o syms = Finishes-bind _ _ (extra_symbols-Finishes o) λ extra.
        Finishes-bind _ _ (Finishes-run host serves _) λ out.
          Finishes-bind _ _ (Finishes-write_file host serves _ _)
            λ _. Finishes-bind _ _ (Finishes-write_file host serves _ _) λ _. Finishes-pure _

    pub run_pre_passes-Finishes : Finishes (run_pre_passes host t tmp)
    unfolding run_pre_passes
    run_pre_passes-Finishes =
        Finishes-bind _ _ (Finishes-run host serves _) λ _. run_passes-Finishes _ _

    pub run_internalize-Finishes : (keep : List Text) → Finishes (run_internalize host t tmp keep)
    unfolding run_internalize
    run_internalize-Finishes keep =
        Finishes-bind _ _ (Finishes-run host serves _)
          λ _. Finishes-bind _ _ (Finishes-run host serves _) λ _. Finishes-pure tt

    pub run_force_inline-Finishes : Finishes (run_force_inline host t tmp)
    unfolding run_force_inline
    run_force_inline-Finishes = Finishes-bind _ _ (Finishes-run host serves _) λ _.
        Finishes-bind _ _ (Finishes-run host serves _)
          λ _. Finishes-bind _ _ (Finishes-run host serves _) λ _. run_passes-Finishes _ _

    trap_mode-Finishes : Finishes (trap_mode host)
    trap_mode-Finishes = record { at = λ s. let (m, e, _, _) = trap_mode_lem host s in (m, e, tt) }

    rewrite_traps-Finishes : (mode : Text) → Finishes (rewrite_traps host t tmp mode)
    unfolding rewrite_traps
    rewrite_traps-Finishes mode = elim (Bool-cases (text_eq mode ret)) [
      | inl e ↦
          rw (rewrite_traps, e)
            (Finishes-bind _ _ (Finishes-run host serves _) λ _. Finishes-pure tt)
      | inr e ↦ rw (rewrite_traps, e) (Finishes-pure tt)
    ]

    pub handle_traps-Finishes : Finishes (handle_traps host t tmp)
    unfolding handle_traps
    handle_traps-Finishes = Finishes-bind _ _ trap_mode-Finishes λ mode.
        Finishes-bind _ _ (rewrite_traps-Finishes mode)
          λ _. Finishes-bind _ _ (Finishes-run host serves _) λ _. Finishes-pure tt

    pub generate_code-Finishes : (o : Opts) → Finishes (generate_code host t tmp o)
    unfolding generate_code
    generate_code-Finishes o = Finishes-bind _ _ (Finishes-run host serves _) λ _.
        Finishes-bind _ _ (Finishes-run host serves _)
          λ _. Finishes-bind _ _ (Finishes-run host serves _) λ _. Finishes-pure tt
