-- ===== src/Linker/Pipeline/Order/Middle.antt =====
-- Commands of the stages from the symbol list to the object.
use libarena_rs.Common.{
  ◌≡◌, refl, ◌∙◌, sym, Bool, List, [], ◌∷◌, ◌++◌, map, Text, codes, text_eq, append-nil,
  if◌then◌else◌, split_whitespace,
}
use libarena_rs.Linker.Args.{Opts}
use libarena_rs.Linker.Session.{Host, Ran, envv_or}
use libarena_rs.Linker.Session.Trace.{
  Adds, Adds-pure, Adds-if, Adds-weaken, Adds-bind, Adds-quiet, IsQuiet-write_file, Adds-run-bind,
  Adds-run-output, IsOutput, Gives, Gives-bind, Gives-ask, Gives-pure,
}
use libarena_rs.Linker.Tools.{Tools}
use libarena_rs.Linker.TrapMode.{trap_mode, trap_mode_lem, ret, ModeOf}
use libarena_rs.Linker.Pipeline.Stage.{
  Stage, stage_command, succeeded, nm, link, disassemble, keep_syms, lower_mem, pre_pass,
  internalize, force_inline, optimize, post_pass, trap_to_ret, codegen, strip, btf_rename,
  linked_bc, stage0_ll, stage1_bc, stage1_ll, stage3_bc, stage3_ll, succeeded-append,
}
use libarena_rs.Linker.Pipeline.Plan.{trap_stages}
use libarena_rs.Linker.Pipeline.Run.{
  exported_lines, list_symbols, link_bitcode, extra_symbols, make_keep_list, run_passes,
  run_pre_passes, run_internalize, run_force_inline, rewrite_traps, handle_traps, generate_code,
  passes, cookie,
}

module _ (host : Host) where
  -- The mode in which traps are handled was chosen in some world.
  abbrev pub IsMode : Text → Type 0
  IsMode mode = (w : host.World) × ModeOf host w mode

  -- VOID_GLOBALS asks for functions that return nothing to be internal, as it does by default.
  abbrev pub drops_void : Bool
  drops_void =
      text_eq (envv_or host (codes "VOID_GLOBALS") (codes "internalize")) (codes "internalize")

module _ (host : Host) (t : Tools) (tmp : Text) where
  abbrev Exactly : {A : Type 0} → List Stage → A → List Ran → Type 0
  Exactly ss a xs = xs ≡ succeeded t tmp ss

  pub list_symbols_adds :
      (bcs : List Text) → Adds (list_symbols host t tmp bcs) (Exactly (nm bcs ∷ []))
  unfolding list_symbols
  list_symbols_adds bcs =
      Adds-run-bind host _ _
        λ out. Adds-quiet _ _ (IsQuiet-write_file host _ _) λ _. Adds-pure _ refl

  pub link_bitcode_adds :
      (rust_bcs arena_bcs : List Text)
      → Adds
          (link_bitcode host t tmp rust_bcs arena_bcs)
          (Exactly (link rust_bcs arena_bcs ∷ disassemble linked_bc stage0_ll ∷ []))
  unfolding link_bitcode
  link_bitcode_adds rust_bcs arena_bcs =
      Adds-run-bind host _ _ λ _. Adds-run-bind host _ _ λ _. Adds-pure _ refl

  -- The words of rustc's export list, if there is one, and of KEEP_EXTRA.
  abbrev pub IsExtra : Opts → List Text → Type 0
  IsExtra o extra =
      (w : host.World) × (extra
        ≡ exported_lines host w o.export_symbols
          ++ split_whitespace (envv_or host (codes "KEEP_EXTRA") []))

  -- The words of what keep_syms.py prints.
  abbrev pub IsKeep : List Text → List Text → Type 0
  IsKeep extra keep =
      (out : Text) × IsOutput host (stage_command t tmp (keep_syms extra (drops_void host))) out
      × (keep ≡ split_whitespace out)

  pub make_keep_list_adds :
      (o : Opts) (syms : List Text)
      → Adds (make_keep_list host t tmp o syms) (λ keep xs.
        (extra : List Text) × IsExtra o extra
        × IsKeep extra keep
        × Exactly (keep_syms extra (drops_void host) ∷ []) keep xs)
  unfolding make_keep_list extra_symbols
  make_keep_list_adds o syms = Gives-bind _ _ asked λ extra is_extra.
      Adds-run-output host _ _ λ out is_out. Adds-quiet _ _ (IsQuiet-write_file host _ _) λ _.
        Adds-quiet _ _ (IsQuiet-write_file host _ _)
          λ _. Adds-pure _ (extra, is_extra, (out, is_out, refl), refl)
    where
      asked : Gives (extra_symbols host t tmp o) (IsExtra o)
      asked = Gives-bind _ _ (Gives-ask host _) λ exported (w, e). Gives-pure _ (w, rw (← e) refl)

  pub run_passes_adds :
      (pass : Text → Stage) (ss : List Text)
      → Adds (run_passes host t tmp pass ss) (Exactly (map pass ss))
  unfolding run_passes
  run_passes_adds pass [] = Adds-pure tt refl
  run_passes_adds pass (s ∷ ss) =
      Adds-run-bind host _ _ λ _. Adds-weaken _ (run_passes_adds pass ss) λ a xs e. rw e

  pub run_pre_passes_adds :
      Adds
        (run_pre_passes host t tmp)
        (Exactly (lower_mem ∷ map pre_pass (passes host (codes "ARENA_PRE_PASSES"))))
  unfolding run_pre_passes
  run_pre_passes_adds =
      Adds-run-bind host _ _ λ _. Adds-weaken _ (run_passes_adds pre_pass _) λ a xs e. rw e

  pub run_internalize_adds :
      (keep : List Text)
      → Adds
          (run_internalize host t tmp keep)
          (Exactly (internalize keep ∷ disassemble stage1_bc stage1_ll ∷ []))
  unfolding run_internalize
  run_internalize_adds keep =
      Adds-run-bind host _ _ λ _. Adds-run-bind host _ _ λ _. Adds-pure _ refl

  -- The words of what force_inline.py prints.
  abbrev pub IsForced : List Text → Type 0
  IsForced args =
      (out : Text) × IsOutput host (stage_command t tmp force_inline) out
      × (args ≡ split_whitespace out)

  pub run_force_inline_adds : Adds (run_force_inline host t tmp) (λ a xs.
      (force_args : List Text) × IsForced force_args
      × Exactly
          (force_inline
            ∷ optimize force_args
            ∷ disassemble stage3_bc stage3_ll
            ∷ map post_pass (passes host (codes "ARENA_POST_PASSES")))
          a
          xs)
  unfolding run_force_inline
  run_force_inline_adds = Adds-run-output host _ _ λ out is_out. Adds-run-bind host _ _ λ _.
      Adds-run-bind host _ _ λ _.
        Adds-weaken _ (run_passes_adds post_pass _)
          λ a xs e. (split_whitespace out, (out, is_out, refl), rw e)

  rewrite_traps_adds :
      (mode : Text)
      → Adds
          (rewrite_traps host t tmp mode)
          (Exactly (if text_eq mode ret then trap_to_ret (cookie host) ∷ [] else []))
  unfolding rewrite_traps
  rewrite_traps_adds mode =
      Adds-if (text_eq mode ret) _ _ (λ e. rw e (Adds-run-bind host _ _ λ _. Adds-pure _ refl))
        (λ e. rw e (Adds-pure _ refl))

  trap_mode_adds : Adds (trap_mode host) (λ mode xs. (xs ≡ []) × IsMode host mode)
  trap_mode_adds = record {
    at = λ s mode e.
        let (m, result, quiet, mode_of) = trap_mode_lem host s in
        let same : m ≡ mode = cc (sym result ∙ e) in
        ([], (refl, (s.world, rw (← same) mode_of)), quiet ∙ sym (append-nil s.ran));
  }

  pub handle_traps_adds :
      Adds
        (handle_traps host t tmp)
        (λ a xs. (mode : Text) × IsMode host mode × Exactly (trap_stages mode (cookie host)) a xs)
  unfolding handle_traps
  handle_traps_adds = Adds-bind _ _ trap_mode_adds λ mode xs (none_run, known). rw none_run (
      Adds-bind _ _ (rewrite_traps_adds mode) λ _ ys e.
        Adds-run-bind host _ _
          λ _. Adds-pure tt (mode, known, rw e (sym (succeeded-append t tmp _ _))))

  pub generate_code_adds :
      (o : Opts)
      → Adds
          (generate_code host t tmp o)
          (Exactly (codegen o.cpu ∷ strip o.output ∷ btf_rename o.output ∷ []))
  unfolding generate_code
  generate_code_adds o =
      Adds-run-bind host _ _
        λ _. Adds-run-bind host _ _ λ _. Adds-run-bind host _ _ λ _. Adds-pure _ refl
