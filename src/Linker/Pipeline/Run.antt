-- ===== src/Linker/Pipeline/Run.antt =====
-- `main`: every stage with its guards, its reads of the environment and its writes of list files.
use libarena_rs.Common.{
  ℕ, suc, ◌||◌, Option, none, some, List, [], ◌∷◌, ◌++◌, map, Text, codes, text_eq, is_nil, find,
  if◌then◌else◌, join_path, split_whitespace, fields, decimal, list_file, ◌==◌,
}
use libarena_rs.Linker.Args.{Opts, Parser, Reading, parse_args}
use libarena_rs.Linker.Args
use libarena_rs.Linker.Session.{
  Host, die, panic, Linking, pure, stop, ◌>>=◌, ◌>>◌, envv_or, is_set, verbose, when, eprintln, run,
  ask, write_file, remove_dir, make_dir, is_bitcode, is_archive,
}
use libarena_rs.Linker.Tools.{Tools, find_tools, extract}
use libarena_rs.Linker.Symbols.{arena_symbols, noinline_symbols}
use libarena_rs.Linker.TrapMode.{trap_mode, throw, ret}
use libarena_rs.Linker.Pipeline.Stage.{
  Stage, nm, link, disassemble, keep_syms, lower_mem, pre_pass, internalize, force_inline, optimize,
  post_pass, trap_to_ret, finalize, codegen, strip, btf_rename, stage_command, p, linked_bc,
  stage0_ll, stage1_bc, stage1_ll, stage3_bc, stage3_ll, arena_syms_txt, keep_txt, noinline_txt,
}

abbrev pub script_names : List Text
script_names =
    codes "lower_mem.py"
    ∷ codes "force_inline.py"
    ∷ codes "keep_syms.py"
    ∷ codes "trap_to_ret.py"
    ∷ codes "bpf_finalize.py"
    ∷ codes "btf_rename.py"
    ∷ []

abbrev missing_archive : Text
missing_archive =
    codes
      "libarena_c.a not found in any -L directory: is libarena-rs a dependency (its build.rs produces it)?"

-- The directory of temporaries beside the output.
abbrev pub temporaries : Opts → Text
temporaries o = o.output ++ codes ".arena-linker"

module _ (host : Host) where
  -- `read_lines`: the words of a file, none if it cannot be read.
  unfoldable pub read_lines : host.World → Text → List Text
  read_lines w path = elim (host.read_to_string w path) [
    | Reading.text t ↦ split_whitespace t
    | Reading.failure e ↦ []
  ]

  abbrev pub exported_lines : host.World → Option Text → List Text
  exported_lines w none = []
  exported_lines w (some path) = read_lines w path

  -- The closure `passes`: the paths of a variable between colons.
  unfoldable pub passes : Text → List Text
  passes var = fields (λ c. c == b':') (envv_or host var [])

  -- TRAP_COOKIE, or its default.
  unfoldable pub cookie : Text
  cookie = envv_or host (codes "TRAP_COOKIE") (codes "0xC0DED")

  -- `parse_args`, over the process's arguments; the messages for unknown flags are printed.
  unfoldable pub print_warnings : List Text → Linking host (Unit {0})
  print_warnings [] = pure tt
  print_warnings (s ∷ ss) = do
    eprintln host (codes "arena-linker: ignoring unknown flag " ++ s)
    print_warnings ss

  unfoldable pub options_of : Args.Parsed Parser → Linking host Opts
  options_of (Args.Parsed.ok q) = do print_warnings q.warned; pure q.opts
  options_of (Args.Parsed.die ws m) = do print_warnings ws; stop (die m)

  unfoldable pub read_options : Linking host Opts
  read_options = do
    parsed ← ask host (λ w. parse_args (host.read_to_string w) host.args)
    options_of parsed

  -- The temporary directory with the scripts in it.
  unfoldable pub write_scripts : Text → List Text → Linking host (Unit {0})
  write_scripts dir [] = pure tt
  write_scripts dir (name ∷ names) = do
    write_file host (join_path dir name) (host.script_body name)
    write_scripts dir names

  unfoldable pub prepare : Text → Linking host (Unit {0})
  prepare tmp = do
    remove_dir host tmp
    make_dir host tmp (λ e. stop (die (tmp ++ (codes ": " ++ e))))
    make_dir host (join_path tmp (codes "scripts")) (λ e. stop panic)
    write_scripts (join_path tmp (codes "scripts")) script_names

  module _ (t : Tools) (tmp : Text) where
    abbrev run_stage : Stage → Linking host Text
    run_stage s = run host (stage_command t tmp s)

    -- The bitcode of the input with number `i`: itself, its members, or none.
    unfoldable pub input_bitcode : ℕ → Text → Linking host (List Text)
    input_bitcode i inp = do
      bitcode ← ask host (λ w. is_bitcode host w inp)
      archive ← ask host (λ w. is_archive host w inp)
      if bitcode
          then pure (inp ∷ [])
          else if archive
          then extract host t inp (p t tmp (codes "rlib" ++ decimal i))
          else do
            when host (verbose host)
                (eprintln host (codes "arena-linker: skipping non-bitcode input " ++ inp))
            pure []

    unfoldable pub gather_inputs : ℕ → List Text → List Text → Linking host (List Text)
    gather_inputs i [] rust_bcs = pure rust_bcs
    gather_inputs i (inp ∷ rest) rust_bcs = do
      bcs ← input_bitcode i inp
      gather_inputs (suc i) rest (rust_bcs ++ bcs)

    abbrev pub archive_or_die : Option Text → Linking host Text
    archive_or_die none = stop (die missing_archive)
    archive_or_die (some archive) = pure archive

    -- The archive of libarena's bitcode, in the first library directory that has it.
    unfoldable pub find_archive : List Text → Linking host Text
    find_archive lib_dirs = do
      found ←
          ask host
            (λ w. find (host.exists w) (map (λ d. join_path d (codes "libarena_c.a")) lib_dirs))
      archive_or_die found

    -- "gather bitcode"
    unfoldable pub gather_bitcode : Opts → Linking host (List Text × List Text)
    gather_bitcode o = do
      rust_bcs ← gather_inputs 0 o.inputs []
      archive ← find_archive o.lib_dirs
      arena_bcs ← extract host t archive (p t tmp (codes "arena_c"))
      if is_nil rust_bcs || is_nil arena_bcs
          then stop (die (codes "no bitcode inputs"))
          else pure (rust_bcs, arena_bcs)

    -- libarena's symbols, which stay outlined.
    unfoldable pub list_symbols : List Text → Linking host (List Text)
    list_symbols arena_bcs = do
      out ← run_stage (nm arena_bcs)
      write_file host (p t tmp arena_syms_txt) (list_file (arena_symbols out))
      pure (arena_symbols out)

    -- "link"
    unfoldable pub link_bitcode : List Text → List Text → Linking host (Unit {0})
    link_bitcode rust_bcs arena_bcs = do
      run_stage (link rust_bcs arena_bcs)
      run_stage (disassemble linked_bc stage0_ll)
      pure tt

    -- The symbols of rustc's export list and of KEEP_EXTRA.
    unfoldable pub extra_symbols : Opts → Linking host (List Text)
    extra_symbols o = do
      exported ← ask host (λ w. exported_lines w o.export_symbols)
      pure (exported ++ split_whitespace (envv_or host (codes "KEEP_EXTRA") []))

    -- "keep list"
    unfoldable pub make_keep_list : Opts → List Text → Linking host (List Text)
    make_keep_list o arena_syms = do
      extra ← extra_symbols o
      out ← run_stage (
          keep_syms extra (
            text_eq (envv_or host (codes "VOID_GLOBALS") (codes "internalize"))
              (codes "internalize")))
      let keep = split_whitespace out
      write_file host (p t tmp keep_txt) (list_file keep)
      write_file host (p t tmp noinline_txt) (list_file (noinline_symbols keep arena_syms))
      pure keep

    unfoldable pub run_passes : (Text → Stage) → List Text → Linking host (Unit {0})
    run_passes pass [] = pure tt
    run_passes pass (s ∷ ss) = do run_stage (pass s); run_passes pass ss

    -- "pre-internalize passes"
    unfoldable pub run_pre_passes : Linking host (Unit {0})
    run_pre_passes = do run_stage lower_mem; run_passes pre_pass (passes (codes "ARENA_PRE_PASSES"))

    -- "internalize + globaldce"
    unfoldable pub run_internalize : List Text → Linking host (Unit {0})
    run_internalize keep = do
      run_stage (internalize keep)
      run_stage (disassemble stage1_bc stage1_ll)
      pure tt

    -- "force-inline + O2"
    unfoldable pub run_force_inline : Linking host (Unit {0})
    run_force_inline = do
      force_args ← run_stage force_inline
      run_stage (optimize (split_whitespace force_args))
      run_stage (disassemble stage3_bc stage3_ll)
      run_passes post_pass (passes (codes "ARENA_POST_PASSES"))

    unfoldable pub rewrite_traps : Text → Linking host (Unit {0})
    rewrite_traps mode =
        if text_eq mode ret then (do run_stage (trap_to_ret cookie); pure tt) else pure tt

    -- "traps, kfunc tagging"
    unfoldable pub handle_traps : Linking host (Unit {0})
    handle_traps = do
      mode ← trap_mode host
      rewrite_traps mode
      run_stage (finalize (if text_eq mode throw then some cookie else none))
      pure tt

    -- "codegen"
    unfoldable pub generate_code : Opts → Linking host (Unit {0})
    generate_code o = do
      run_stage (codegen o.cpu)
      run_stage (strip o.output)
      run_stage (btf_rename o.output)
      pure tt

    -- What `main` does once the tools are found and the temporary directory stands.
    unfoldable pub build_object : Opts → Linking host (Unit {0})
    build_object o = do
      (rust_bcs, arena_bcs) ← gather_bitcode o
      arena_syms ← list_symbols arena_bcs
      link_bitcode rust_bcs arena_bcs
      keep ← make_keep_list o arena_syms
      run_pre_passes
      run_internalize keep
      run_force_inline
      handle_traps
      generate_code o

  -- The lines of `main` behind the one that parses the arguments.
  abbrev pub rest_of_main : Opts → Linking host (Unit {0})
  rest_of_main o = do
    t ← find_tools host
    prepare (temporaries o)
    build_object t (temporaries o) o
    if is_set host (codes "ARENA_LINKER_KEEP_TEMPS")
        then pure tt
        else remove_dir host (temporaries o)

  unfoldable pub main : Linking host (Unit {0})
  main = do o ← read_options; rest_of_main o
