-- ===== src/Linker/Pipeline/Order/Whole.antt =====
-- `main` as a whole.
use libarena_rs.Common.{◌≡◌, refl, false, List, [], ◌∷◌, ◌++◌, Text, codes, is_nil}
use libarena_rs.Linker.Args.{Opts, Parser, parse_args}
use libarena_rs.Linker.Args
use libarena_rs.Linker.Session.{Host, Session, ok, Ran}
use libarena_rs.Linker.Session.Trace.{
  Adds, IsQuiet, Adds-weaken, Adds-bind, IsQuiet-bind, IsQuiet-pure, IsQuiet-stop,
  IsQuiet-write_file, IsQuiet-eprintln, IsQuiet-make_dir, IsQuiet-remove_dir,
}
use libarena_rs.Linker.Tools.{Tools}
use libarena_rs.Linker.Tools.Laws.{AreTools}
use libarena_rs.Linker.Pipeline.Stage.{succeeded, succeeded-append, p}
use libarena_rs.Linker.Pipeline.Plan.{Parts, plan}
use libarena_rs.Linker.Pipeline.Order.Inputs.{AreInputs, IsFound, IsResolved, AreMembers}
use libarena_rs.Linker.Pipeline.Order.Gather.{gather_bitcode_adds}
use libarena_rs.Linker.Pipeline.Order.Middle.{
  list_symbols_adds, link_bitcode_adds, make_keep_list_adds, run_pre_passes_adds,
  run_internalize_adds, run_force_inline_adds, IsMode, IsExtra, IsKeep, IsForced, drops_void,
  handle_traps_adds, generate_code_adds,
}
use libarena_rs.Linker.Pipeline.Run.{
  print_warnings, prepare, write_scripts, build_object, temporaries, passes, cookie,
}

module _ (host : Host) where
  -- The link's parts: what it read, and what the environment says.
  pub record IsLink (t : Tools) (tmp : Text) (o : Opts) (x : Parts) : Type 0 where
    pub program_archives : List (Text × Text)
    pub program : AreInputs host t tmp 0 o.inputs x.rust_bcs program_archives
    pub archive : Text
    pub found : IsFound host o.lib_dirs archive
    pub arena_archive : Text
    pub resolved : IsResolved host archive arena_archive
    pub members : AreMembers host (p t tmp (codes "arena_c")) x.arena_bcs
    pub unpacks_are :
        x.unpacks ≡ program_archives ++ (arena_archive, p t tmp (codes "arena_c")) ∷ []
    pub extra_are : IsExtra host t tmp o x.extra
    pub keep_is : IsKeep host t tmp x.extra x.keep
    pub forced_are : IsForced host t tmp x.force_args
    pub some_rust : is_nil x.rust_bcs ≡ false
    pub some_arena : is_nil x.arena_bcs ≡ false
    pub drop_void_is : x.drop_void ≡ drops_void host
    pub mode_known : IsMode host x.mode
    pub cookie_is : x.cookie ≡ cookie host
    pub pre_passes_are : x.pre_passes ≡ passes host (codes "ARENA_PRE_PASSES")
    pub post_passes_are : x.post_passes ≡ passes host (codes "ARENA_POST_PASSES")

  pub build_object_adds :
      (t : Tools) (tmp : Text) (o : Opts)
      → Adds
          (build_object host t tmp o)
          (λ a xs. (x : Parts) × IsLink t tmp o x × (xs ≡ succeeded t tmp (plan o x)))
  unfolding build_object
  build_object_adds t tmp o = Adds-bind _ _ (gather_bitcode_adds host t tmp o) λ bcs xs g.
      Adds-bind _ _ (list_symbols_adds host t tmp bcs.1) λ syms _ listed.
        Adds-bind _ _ (link_bitcode_adds host t tmp bcs.0 bcs.1) λ _ _ linked.
          Adds-bind _ _ (make_keep_list_adds host t tmp o syms)
            λ keep _ (extra, is_extra, is_keep, kept).
              Adds-bind _ _ (run_pre_passes_adds host t tmp) λ _ _ pre.
                Adds-bind _ _ (run_internalize_adds host t tmp keep) λ _ _ internal.
                  Adds-bind _ _ (run_force_inline_adds host t tmp)
                    λ _ _ (force_args, forced, inlined).
                      Adds-bind _ _ (handle_traps_adds host t tmp) λ _ _ (mode, known, traps).
                        Adds-weaken _ (generate_code_adds host t tmp o) λ _ _ generated. (
                          record {
                            unpacks =
                                g.program_archives
                                ++ (g.arena_archive, p t tmp (codes "arena_c")) ∷ [];
                            rust_bcs = bcs.0;
                            arena_bcs = bcs.1;
                            extra = extra;
                            drop_void = drops_void host;
                            keep = keep;
                            pre_passes = passes host (codes "ARENA_PRE_PASSES");
                            force_args = force_args;
                            post_passes = passes host (codes "ARENA_POST_PASSES");
                            mode = mode;
                            cookie = cookie host;
                          },
                          record {
                            program_archives = g.program_archives;
                            program = g.program;
                            archive = g.archive;
                            found = g.found;
                            arena_archive = g.arena_archive;
                            resolved = g.resolved;
                            members = g.members;
                            unpacks_are = refl;
                            drop_void_is = refl;
                            extra_are = is_extra;
                            keep_is = is_keep;
                            forced_are = forced;
                            some_rust = g.some_rust;
                            some_arena = g.some_arena;
                            mode_known = known;
                            cookie_is = refl;
                            pre_passes_are = refl;
                            post_passes_are = refl;
                          },
                          rw
                              (
                                g.unpacks, listed, linked, kept, pre, internal, inlined, traps,
                                generated,
                              )
                              (simp succeeded-append),
                        )

  pub print_warnings-IsQuiet : (ss : List Text) → IsQuiet (print_warnings host ss)
  unfolding print_warnings
  print_warnings-IsQuiet [] = IsQuiet-pure tt
  print_warnings-IsQuiet (s ∷ ss) =
      IsQuiet-bind _ _ (IsQuiet-eprintln host _) (λ _. print_warnings-IsQuiet ss)

  -- The options are those of the command line.
  abbrev Parses : Opts → Type 0
  Parses o =
      (w : host.World) × (q : Parser) × (parse_args (host.read_to_string w) host.args
        ≡ Args.Parsed.ok q)
      × (o ≡ q.opts)

  write_scripts-IsQuiet : (dir : Text) (names : List Text) → IsQuiet (write_scripts host dir names)
  unfolding write_scripts
  write_scripts-IsQuiet dir [] = IsQuiet-pure tt
  write_scripts-IsQuiet dir (n ∷ names) =
      IsQuiet-bind _ _ (IsQuiet-write_file host _ _) (λ _. write_scripts-IsQuiet dir names)

  pub prepare-IsQuiet : (tmp : Text) → IsQuiet (prepare host tmp)
  unfolding prepare
  prepare-IsQuiet tmp = IsQuiet-bind _ _ (IsQuiet-remove_dir host _) λ _.
      IsQuiet-bind _ _ (IsQuiet-make_dir host _ _ (λ e. IsQuiet-stop _)) λ _.
        IsQuiet-bind _ _ (IsQuiet-make_dir host _ _ (λ e. IsQuiet-stop _))
          λ _. write_scripts-IsQuiet _ _

  -- The commands of a link: those of the pipeline for the options of the command line, under some
  -- tools, each of which succeeded.
  pub record Linked (xs : List Ran) : Type 0 where
    pub opts : Opts
    pub parses : Parses opts
    pub tools : Tools
    pub tools_are : AreTools host tools
    pub parts : Parts
    pub is_link : IsLink tools (temporaries opts) opts parts
    pub in_order : xs ≡ succeeded tools (temporaries opts) (plan opts parts)
