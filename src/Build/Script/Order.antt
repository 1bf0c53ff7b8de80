-- ===== src/Build/Script/Order.antt =====
-- The commands of a build that returns.
use libarena_rs.Common.{
  ◌≡◌, text_eq, if◌then◌else◌, refl, ◌⊎◌, true, false, some, List, [], ◌∷◌, ◌++◌, Text, codes, map,
  parent,
}
use libarena_rs.Linker.Session.{Ran, Session}
use libarena_rs.Linker.Session.Trace.{
  IsQuiet, IsQuiet-ask, IsQuiet-bind, IsQuiet-pure, IsQuiet-stop, IsQuiet-if, done,
}
use libarena_rs.Build.Session.{Builder}
use libarena_rs.Build.Session.Trace.{
  IsQuiet-println, IsQuiet-act, IsQuiet-on_done, IsQuiet-unwrap_or_panic,
}
use libarena_rs.Build.Sources.{libarena_snapshot, archive_bpf_sources}
use libarena_rs.Build.Knobs.{value_or, tool_program}
use libarena_rs.Build.Knobs.Laws.{var, llvm_bin_of, IsVmlinux, IsInclude, HasHelpers, IsStream}
use libarena_rs.Build.Script.{
  Knobs, compile_command, archive_command, print_reruns, package_sources, remove_archive, is_bpf,
}
use libarena_rs.Build.Script.Objects.{source_objects, second}

module _ (b : Builder) where
  -- The knobs, each from its variable or the default.
  pub record IsKnobs (out : Text) (k : Knobs) : Type 0 where
    pub clang_is :
        k.clang
        ≡ value_or
            (tool_program (llvm_bin_of b (var b (codes "LLVM_PREFIX"))) (codes "clang"))
            (var b (codes "CLANG"))
    pub vmlinux_is : IsVmlinux b out (var b (codes "LIBARENA_VMLINUX_H")) k.vmlinux_h
    pub libbpf_is : IsInclude b k.libbpf_include
    pub has_helpers : HasHelpers b k.libbpf_include
    pub stream_is : IsStream b (var b (codes "LIBARENA_VMLINUX_H")) k.stream
    pub arch_is :
        k.arch
        ≡ value_or
            (if text_eq b.arch (codes "aarch64")
              then codes "-D__TARGET_ARCH_arm64"
              else codes "-D__TARGET_ARCH_x86")
            (var b (codes "BPF_ARCH_DEFINE"))
    pub cpu_is : k.cpu ≡ value_or (codes "v4") (var b (codes "BPF_CPU"))

  archive_bpf_sources-IsQuiet : (la out : Text) → IsQuiet (archive_bpf_sources b la out)
  unfolding archive_bpf_sources
  archive_bpf_sources-IsQuiet la out = IsQuiet-bind _ _ (IsQuiet-act b _) λ file.
      IsQuiet-on_done b _ file λ a. IsQuiet-bind _ _ (IsQuiet-act b _) λ r.
        IsQuiet-on_done b _ r
          λ a. IsQuiet-bind _ _ (IsQuiet-act b _) λ r. IsQuiet-on_done b _ r λ a. IsQuiet-act b _

  pub print_reruns-IsQuiet : (ls : List Text) → IsQuiet (print_reruns b ls)
  unfolding print_reruns
  print_reruns-IsQuiet [] = IsQuiet-pure tt
  print_reruns-IsQuiet (l ∷ ls) =
      IsQuiet-bind _ _ (IsQuiet-println b _) λ _. print_reruns-IsQuiet ls

  pub package_sources-IsQuiet : (suffix la out : Text) → IsQuiet (package_sources b suffix la out)
  unfolding package_sources
  package_sources-IsQuiet suffix la out = IsQuiet-bind _ _ (IsQuiet-ask b.host _) λ found.
      IsQuiet-if found _ _
        (IsQuiet-bind _ _ (archive_bpf_sources-IsQuiet la out) λ r. IsQuiet-unwrap_or_panic b _ r)
        (IsQuiet-stop _)

  module _ (root la out : Text) (k : Knobs) (dir : Text)
      (here : parent k.vmlinux_h ≡ some dir) where
    -- The compilations of sources to their objects, each of which succeeded.
    abbrev pub compilations : List (Text × Text) → List Ran
    compilations = map (λ (src, bc). done b.host (compile_command root la k dir src bc))

  -- The commands of a build for BPF: the three compilations and the archive of their objects.
  pub record Compiled (xs : List Ran) : Type 0 where
    pub root : Text
    pub out : Text
    pub root_is : b.host.env_var (codes "CARGO_MANIFEST_DIR") ≡ some root
    pub out_is : b.host.env_var (codes "OUT_DIR") ≡ some out
    pub knobs : Knobs
    pub knobs_are : IsKnobs out knobs
    pub vmlinux_dir : Text
    pub vmlinux_in : parent knobs.vmlinux_h ≡ some vmlinux_dir
    pub in_order :
        xs
        ≡ compilations root
            (libarena_snapshot b root).1
            out
            knobs
            vmlinux_dir
            vmlinux_in
            (source_objects root (libarena_snapshot b root).1 out)
          ++ done b.host (
              archive_command
                (llvm_bin_of b (var b (codes "LLVM_PREFIX")))
                out
                (map second (source_objects root (libarena_snapshot b root).1 out)))
            ∷ []

  pub remove_archive-IsQuiet : (path : Text) → IsQuiet (remove_archive b path)
  remove_archive-IsQuiet path = record { at = λ s. refl }

  -- What a build that returns has run.
  abbrev pub Built : List Ran → Type 0
  Built xs = ((is_bpf b ≡ true) × Compiled xs) ⊎ ((is_bpf b ≡ false) × (xs ≡ []))
