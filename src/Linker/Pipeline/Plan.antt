-- ===== src/Linker/Pipeline/Plan.antt =====
-- The order of the pipeline, as the head of main.rs and the README describe it.
use libarena_rs.Common.{Bool, none, some, List, [], ◌∷◌, ◌++◌, map, Text, text_eq, if◌then◌else◌}
use libarena_rs.Linker.Args.{Opts}
use libarena_rs.Linker.TrapMode.{throw, ret}
use libarena_rs.Linker.Pipeline.Stage.{
  Stage, unpack, nm, link, disassemble, keep_syms, lower_mem, pre_pass, internalize, force_inline,
  optimize, post_pass, trap_to_ret, finalize, codegen, strip, btf_rename, linked_bc, stage0_ll,
  stage1_bc, stage1_ll, stage3_bc, stage3_ll,
}

abbrev pub unpackings : List (Text × Text) → List Stage
unpackings [] = []
unpackings ((archive, dir) ∷ us) = unpack archive dir ∷ unpackings us

abbrev pub trap_stages : Text → Text → List Stage
trap_stages mode cookie =
    (if text_eq mode ret then trap_to_ret cookie ∷ [] else [])
    ++ finalize (if text_eq mode throw then some cookie else none) ∷ []

-- What varies between links.
pub record Parts : Type 0 where
  pub unpacks : List (Text × Text)
  pub rust_bcs : List Text
  pub arena_bcs : List Text
  pub extra : List Text
  pub drop_void : Bool
  pub keep : List Text
  pub pre_passes : List Text
  pub force_args : List Text
  pub post_passes : List Text
  pub mode : Text
  pub cookie : Text

abbrev pub front : Parts → List Stage
front x =
    nm x.arena_bcs
    ∷ link x.rust_bcs x.arena_bcs
    ∷ disassemble linked_bc stage0_ll
    ∷ keep_syms x.extra x.drop_void
    ∷ lower_mem
    ∷ map pre_pass x.pre_passes

abbrev pub middle : Parts → List Stage
middle x =
    internalize x.keep
    ∷ disassemble stage1_bc stage1_ll
    ∷ force_inline
    ∷ optimize x.force_args
    ∷ disassemble stage3_bc stage3_ll
    ∷ map post_pass x.post_passes

abbrev pub back : Opts → Parts → List Stage
back o x = trap_stages x.mode x.cookie ++ codegen o.cpu ∷ strip o.output ∷ btf_rename o.output ∷ []

abbrev pub plan : Opts → Parts → List Stage
plan o x = unpackings x.unpacks ++ (front x ++ (middle x ++ back o x))
