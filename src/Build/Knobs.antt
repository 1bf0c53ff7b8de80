-- ===== src/Build/Knobs.antt =====
-- The tools and the knobs of the build, each from its variable or a default.
pub mod Laws
pub mod Returning
use libarena_rs.Common.{
  Bool, true, false, not, ◌&&◌, ◌||◌, Option, none, some, List, [], ◌∷◌, ◌++◌, Text, codes,
  join_path, if◌then◌else◌, text_eq, starts_with, lines, trim,
}
use libarena_rs.Linker.Args.{Reading}
use libarena_rs.Linker.Session.{
  Command, Output, Spawned, cannot_run, ended, Linking, pure, stop, panic_with, ◌>>=◌, ◌>>◌, spawn,
  ask, write_file,
}
use libarena_rs.Linker.Tools.{command}
use libarena_rs.Build.Session.{Builder, Building, envv}

abbrev pub value_or : Text → Option Text → Text
value_or d none = d
value_or d (some v) = v

-- The closure `tool`, as the program of the command.
unfoldable pub tool_program : Option Text → Text → Text
tool_program none name = name
tool_program (some bin) name = join_path bin name

-- `str::ends_with`.
unfoldable pub ends_with : Text → Text → Bool
ends_with p [] = text_eq p []
ends_with p (c ∷ s) = text_eq p (c ∷ s) || ends_with p s

abbrev pub any_line : (Text → Bool) → List Text → Bool
any_line p [] = false
any_line p (l ∷ ls) = p l || any_line p ls

abbrev pub is_none : Option Text → Bool
is_none none = true
is_none (some v) = false

-- The macro for the architecture that the script runs on.
abbrev pub default_arch : Text → Text
default_arch arch =
    if text_eq arch (codes "aarch64")
    then codes "-D__TARGET_ARCH_arm64"
    else codes "-D__TARGET_ARCH_x86"

-- The directory that `pkg-config` names, if it runs and succeeds.
abbrev pub include_dir : Spawned → Text
include_dir (cannot_run e) = codes "/usr/include"
include_dir (ended o) = if o.success then trim o.stdout else codes "/usr/include"

module _ (b : Builder) where
  -- The directory of LLVM's tools.
  unfoldable pub find_llvm_bin : Building b (Option Text)
  find_llvm_bin = do
    prefix ← envv b (codes "LLVM_PREFIX")
    pure (elim prefix [ none ↦ none | some p ↦ some (join_path p (codes "bin")) ])

  unfoldable pub find_clang : Option Text → Building b Text
  find_clang llvm_bin = do
    clang ← envv b (codes "CLANG")
    pure (value_or (tool_program llvm_bin (codes "clang")) clang)

  abbrev pub dumped : Text → Text → Text → Spawned → Building b Text
  dumped p btf bpftool (cannot_run e) = stop (
      panic_with (
        codes "cannot run "
        ++ (bpftool
            ++ (codes " to generate vmlinux.h: " ++ (e ++ codes "; set LIBARENA_VMLINUX_H")))))
  dumped p btf bpftool (ended o) =
      if o.success
      then (do write_file b.host p o.stdout; pure p)
      else stop
          (panic_with (codes "bpftool btf dump " ++ (btf ++ (codes " failed:\n" ++ o.stderr))))

  -- vmlinux.h, as it is given or as `bpftool` writes it for the running kernel.
  unfoldable pub find_vmlinux : Text → Option Text → Building b Text
  find_vmlinux out (some p) = pure p
  find_vmlinux out none = do
    btf ← envv b (codes "VMLINUX_BTF")
    bpftool ← envv b (codes "BPFTOOL")
    dump ← spawn b.host (
        command (value_or (codes "bpftool") bpftool) (
          codes "btf"
          ∷ codes "dump"
          ∷ codes "file"
          ∷ value_or (codes "/sys/kernel/btf/vmlinux") btf
          ∷ codes "format"
          ∷ codes "c"
          ∷ []))
    dumped (join_path out (codes "vmlinux.h")) (value_or (codes "/sys/kernel/btf/vmlinux") btf)
        (value_or (codes "bpftool") bpftool) dump

  abbrev pub asked_include : Option Text → Building b Text
  asked_include (some dir) = pure dir
  asked_include none = do
    r ←
        spawn b.host
          (command (codes "pkg-config") (codes "--variable=includedir" ∷ codes "libbpf" ∷ []))
    pure (include_dir r)

  abbrev no_helpers : Text → Text
  no_helpers dir =
      codes "bpf/bpf_helpers.h not found under "
      ++ (dir ++ codes ": install libbpf-dev or set LIBBPF_INCLUDE")

  -- "libbpf headers"
  unfoldable pub find_libbpf : Building b Text
  find_libbpf = do
    asked ← envv b (codes "LIBBPF_INCLUDE")
    dir ← asked_include asked
    found ← ask b.host (λ w. b.host.exists w (join_path dir (codes "bpf/bpf_helpers.h")))
    if found then pure dir else stop (panic_with (no_helpers dir))

  -- The running kernel has the older stream kfunc.
  unfoldable pub has_impl : b.host.World → Bool
  has_impl w = elim (b.host.read_to_string w (codes "/proc/kallsyms")) [
    | Reading.failure e ↦ false
    | Reading.text t ↦ any_line (ends_with (codes " bpf_stream_vprintk_impl")) (lines t)
  ]

  abbrev pub detected_stream : Option Text → Option Text → Building b Text
  detected_stream user_vmlinux (some v) = pure v
  detected_stream user_vmlinux none = do
    impl ← ask b.host (λ w. is_none user_vmlinux && has_impl w)
    pure (if impl then codes "impl" else codes "plain")

  unfoldable pub find_stream : Option Text → Building b Text
  find_stream user_vmlinux = do
    stream ← envv b (codes "BPF_STREAM_KFUNC")
    detected_stream user_vmlinux stream

  unfoldable pub find_arch : Building b Text
  find_arch = do arch ← envv b (codes "BPF_ARCH_DEFINE"); pure (value_or (default_arch b.arch) arch)

  unfoldable pub find_cpu : Building b Text
  find_cpu = do cpu ← envv b (codes "BPF_CPU"); pure (value_or (codes "v4") cpu)
