-- ===== src/Linker/Pipeline/Returning/Whole.antt =====
-- `main` as a whole returns.
use libarena_rs.Common.{◌≡◌, refl, codes}
use libarena_rs.Linker.Args.{Opts, Parser, parse_args}
use libarena_rs.Linker.Args
use libarena_rs.Linker.Session.{Host, Session, ok, is_set, remove_dir}
use libarena_rs.Linker.Session.Returning.{
  Finishes, Serves, Finishes-pure, Returns-if, returns_at, Finishes-bind, Finishes-remove_dir,
}
use libarena_rs.Linker.Tools.{Tools}
use libarena_rs.Linker.Tools.Laws.{find_tools-Finishes}
use libarena_rs.Linker.Pipeline.Run.{
  read_options, options_of, build_object, main, temporaries, rest_of_main,
}
use libarena_rs.Linker.Pipeline.Returning.Gather.{HasBitcode, gather_bitcode-Finishes}
use libarena_rs.Linker.Pipeline.Returning.Sections.{
  prepare-Finishes, list_symbols-Finishes, link_bitcode-Finishes, make_keep_list-Finishes,
  run_pre_passes-Finishes, run_internalize-Finishes, run_force_inline-Finishes,
  handle_traps-Finishes, generate_code-Finishes, print_warnings-Finishes,
}

module _ (host : Host) (serves : Serves host) where
  build_object-Finishes :
      (t : Tools) (o : Opts) → HasBitcode host o → Finishes (build_object host t (temporaries o) o)
  unfolding build_object
  build_object-Finishes t o h =
      let tmp = temporaries o in
      Finishes-bind _ _ (gather_bitcode-Finishes host serves t o h) λ bcs.
        Finishes-bind _ _ (list_symbols-Finishes host serves t tmp bcs.1) λ syms.
          Finishes-bind _ _ (link_bitcode-Finishes host serves t tmp bcs.0 bcs.1) λ _.
            Finishes-bind _ _ (make_keep_list-Finishes host serves t tmp o syms) λ keep.
              Finishes-bind _ _ (run_pre_passes-Finishes host serves t tmp) λ _.
                Finishes-bind _ _ (run_internalize-Finishes host serves t tmp keep) λ _.
                  Finishes-bind _ _ (run_force_inline-Finishes host serves t tmp) λ _.
                    Finishes-bind _ _ (handle_traps-Finishes host serves t tmp)
                      λ _. generate_code-Finishes host serves t tmp o

  rest_of_main-Finishes : (o : Opts) → HasBitcode host o → Finishes (rest_of_main host o)
  rest_of_main-Finishes o h = Finishes-bind _ _ (find_tools-Finishes host) λ t.
      Finishes-bind _ _ (prepare-Finishes host serves _) λ _.
        Finishes-bind _ _ (build_object-Finishes t o h) λ _.
          Returns-if (is_set host (codes "ARENA_LINKER_KEEP_TEMPS")) _
            (remove_dir host (temporaries o)) (λ _. Finishes-pure tt)
            (λ _. Finishes-remove_dir host (temporaries o))

  options_of_parsed :
      (s : Session host.World) (q : Parser) → (options_of host (Args.Parsed.ok q) s).0 ≡ ok q.opts
  unfolding options_of
  options_of_parsed s q =
      let (_, e, _) = (print_warnings-Finishes host serves q.warned).at s in returns_at _ _ s e refl

  read_options_parsed :
      (s : Session host.World) (q : Parser)
      → parse_args (host.read_to_string s.world) host.args ≡ Args.Parsed.ok q
      → (read_options host s).0 ≡ ok q.opts
  unfolding read_options
  read_options_parsed s q parsed = returns_at _ _ s refl (rw parsed (options_of_parsed s q))

  -- Where the operating system serves every request and every command succeeds, a link with options
  -- that parse returns: it needs an input that is bitcode, libarena's archive in a library directory,
  -- and bitcode among the members of that.
  pub main_returns :
      (s : Session host.World) (q : Parser)
      → parse_args (host.read_to_string s.world) host.args ≡ Args.Parsed.ok q
      → HasBitcode host q.opts
      → (main host s).0 ≡ ok tt
  unfolding main
  main_returns s q parsed h =
      let (_, e, _) = (rest_of_main-Finishes q.opts h).at (read_options host s).1 in
      returns_at _ _ s (read_options_parsed s q parsed) e
