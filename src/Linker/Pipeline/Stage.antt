-- ===== src/Linker/Pipeline/Stage.antt =====
-- The commands of the pipeline, each with what varies in it, and the files that it reads and writes
-- in the directory of temporaries.
use libarena_rs.Common.{
  ◌≡◌, refl, Bool, true, Option, none, some, List, [], ◌∷◌, ◌++◌, map, Text, codes, join_path,
  is_nil, if◌then◌else◌,
}
use libarena_rs.Linker.Session.{Command, Ran}
use libarena_rs.Linker.Tools.{Tools, tool, py, unpack_command}

pub data Stage : Type 0 where
  unpack : Text → Text → Stage
  nm : List Text → Stage
  link : List Text → List Text → Stage
  disassemble : Text → Text → Stage
  keep_syms : List Text → Bool → Stage
  lower_mem : Stage
  pre_pass : Text → Stage
  internalize : List Text → Stage
  force_inline : Stage
  optimize : List Text → Stage
  post_pass : Text → Stage
  trap_to_ret : Text → Stage
  finalize : Option Text → Stage
  codegen : Text → Stage
  strip : Text → Stage
  btf_rename : Text → Stage

abbrev pub linked_bc : Text
linked_bc = codes "linked.bc"

abbrev pub stage0_ll : Text
stage0_ll = codes "stage0.ll"

abbrev pub stage1_bc : Text
stage1_bc = codes "stage1.bc"

abbrev pub stage1_ll : Text
stage1_ll = codes "stage1.ll"

abbrev pub stage2_ll : Text
stage2_ll = codes "stage2.ll"

abbrev pub stage3_bc : Text
stage3_bc = codes "stage3.bc"

abbrev pub stage3_ll : Text
stage3_ll = codes "stage3.ll"

abbrev pub final_ll : Text
final_ll = codes "final.ll"

abbrev pub out_o : Text
out_o = codes "out.o"

abbrev pub arena_syms_txt : Text
arena_syms_txt = codes "arena_syms.txt"

abbrev pub keep_txt : Text
keep_txt = codes "keep.txt"

abbrev pub noinline_txt : Text
noinline_txt = codes "noinline.txt"

module _ (t : Tools) (tmp : Text) where
  -- The closures `p` and `script`.
  unfoldable pub p : Text → Text
  p n = join_path tmp n

  unfoldable pub script : Text → Text
  script n = join_path (join_path tmp (codes "scripts")) n

  abbrev with_extra : List Text → List Text
  with_extra extra = if is_nil extra then [] else codes "--extra" ∷ extra

  abbrev trap_cookie : Option Text → List Text
  trap_cookie none = []
  trap_cookie (some c) = (codes "--trap-cookie=" ++ c) ∷ []

  -- The command that a stage runs, with the arguments in the order of the source.
  unfoldable pub stage_command : Stage → Command
  unfolding p script tool py unpack_command
  stage_command (unpack archive dir) = unpack_command t archive dir
  stage_command (nm bcs) = tool t (codes "llvm-nm") (codes "--defined-only" ∷ bcs)
  stage_command (link rust_bcs arena_bcs) =
      tool t (codes "llvm-link") (rust_bcs ++ (arena_bcs ++ codes "-o" ∷ p linked_bc ∷ []))
  stage_command (disassemble from to) = tool t (codes "llvm-dis") (p from ∷ codes "-o" ∷ p to ∷ [])
  stage_command (keep_syms extra drop_void) = py t (script (codes "keep_syms.py")) (
      p stage0_ll
      ∷ codes "--nm-list"
      ∷ p arena_syms_txt
      ∷ (with_extra extra ++ (if drop_void then codes "--drop-void-globals" ∷ [] else [])))
  stage_command lower_mem = py t (script (codes "lower_mem.py")) (p stage0_ll ∷ p stage0_ll ∷ [])
  stage_command (pre_pass s) = py t s (p stage0_ll ∷ p stage0_ll ∷ [])
  stage_command (internalize keep) = tool t (codes "opt") (
      map (λ k. codes "--internalize-public-api-list=" ++ k) keep
      ++ codes "--force-remove-attribute=cold"
        ∷ codes "-passes=forceattrs,internalize,globaldce"
        ∷ p stage0_ll
        ∷ codes "-o"
        ∷ p stage1_bc
        ∷ [])
  stage_command force_inline =
      py t (script (codes "force_inline.py")) (p stage1_ll ∷ p stage2_ll ∷ p noinline_txt ∷ [])
  stage_command (optimize force_args) = tool t (codes "opt") (
      force_args
      ++ codes "-passes=forceattrs,always-inline,globaldce,default<O2>"
        ∷ p stage2_ll
        ∷ codes "-o"
        ∷ p stage3_bc
        ∷ [])
  stage_command (post_pass s) = py t s (p stage3_ll ∷ p stage3_ll ∷ [])
  stage_command (trap_to_ret cookie) =
      py t (script (codes "trap_to_ret.py")) (p stage3_ll ∷ p stage3_ll ∷ cookie ∷ [])
  stage_command (finalize cookie) =
      py t (script (codes "bpf_finalize.py")) (p stage3_ll ∷ p final_ll ∷ trap_cookie cookie)
  stage_command (codegen cpu) = tool t (codes "llc") (
      codes "-march=bpfel"
      ∷ (codes "-mcpu=" ++ cpu)
      ∷ codes "-filetype=obj"
      ∷ p final_ll
      ∷ codes "-o"
      ∷ p out_o
      ∷ [])
  stage_command (strip output) = tool t (codes "llvm-objcopy") (
      codes "--remove-section=.eh_frame"
      ∷ codes "--remove-section=.rel.eh_frame"
      ∷ codes "--remove-section=.gcc_except_table"
      ∷ codes "--strip-symbol=rust_eh_personality"
      ∷ p out_o
      ∷ output
      ∷ [])
  stage_command (btf_rename output) = py t (script (codes "btf_rename.py")) (output ∷ [])

  -- The entries of a session for stages that have run and succeeded.
  abbrev pub succeeded : List Stage → List Ran
  succeeded [] = []
  succeeded (s ∷ ss) = record { command = stage_command s; success = true } ∷ succeeded ss

  pub unpack_stage :
      (archive dir : Text) → stage_command (unpack archive dir) ≡ unpack_command t archive dir
  unfolding stage_command
  unpack_stage archive dir = refl

  pub succeeded-append : (ss ts : List Stage) → succeeded (ss ++ ts) ≡ succeeded ss ++ succeeded ts
  succeeded-append [] ts = refl
  succeeded-append (s ∷ ss) ts = rw (succeeded-append ss ts)
