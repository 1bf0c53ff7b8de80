-- ===== src/Build/Script.antt =====
-- `main` of build.rs.
pub mod Objects
pub mod Order
pub mod Returning
use libarena_rs.Common.{
  Bool, true, false, not, Option, none, some, List, [], ◌∷◌, ◌++◌, Text, codes, join_path,
  if◌then◌else◌, text_eq, parent, file_stem, with_extension,
}
use libarena_rs.Linker.Session.{
  Command, Linking, ok, pure, stop, panic_with, ◌>>=◌, ◌>>◌, ask, unwrap,
}
use libarena_rs.Linker.Tools.{command}
use libarena_rs.Build.Session.{Builder, Building, println, run, unwrap_or_panic, envv}
use libarena_rs.Build.Sources.{libarena_snapshot, archive_bpf_sources}
use libarena_rs.Build.Knobs.{
  tool_program, find_llvm_bin, find_clang, find_vmlinux, find_libbpf, find_stream, find_arch,
  find_cpu,
}

-- What the compiler's command line is made of.
pub record Knobs : Type 0 where
  pub clang : Text
  pub vmlinux_h : Text
  pub libbpf_include : Text
  pub stream : Text
  pub arch : Text
  pub cpu : Text

abbrev pub rerun_lines : List Text
rerun_lines =
    codes "build.rs"
    ∷ codes "csrc"
    ∷ codes "vendor/libarena/libarena/src"
    ∷ codes "vendor/libarena/libarena/include"
    ∷ codes "vendor/libarena-compat/libarena/src"
    ∷ codes "vendor/libarena-compat/libarena/include"
    ∷ []

-- The three sources.
abbrev pub sources : Text → Text → List Text
sources root la =
    join_path la (codes "src/common.bpf.c")
    ∷ join_path la (codes "src/buddy.bpf.c")
    ∷ join_path root (codes "csrc/arena_glue.bpf.c")
    ∷ []

-- The command that compiles one source to an object.
unfoldable pub compile_command : Text → Text → Knobs → Text → Text → Text → Command
compile_command root la k vmlinux_dir src bc = command k.clang (
    codes "--target=bpfel"
    ∷ (codes "-mcpu=" ++ k.cpu)
    ∷ codes "-O2"
    ∷ codes "-g"
    ∷ codes "-DENABLE_ATOMICS_TESTS"
    ∷ k.arch
    ∷ codes "-Wno-incompatible-pointer-types-discards-qualifiers"
    ∷ codes "-Wno-missing-declarations"
    ∷ codes "-Wno-macro-redefined"
    ∷ ((if text_eq k.stream (codes "impl") then codes "-DLIBARENA_RS_STREAM_IMPL" ∷ [] else [])
        ++ codes "-include"
          ∷ join_path root (codes "csrc/kfunc_compat.h")
          ∷ (codes "-I" ++ join_path la (codes "include"))
          ∷ (codes "-I" ++ vmlinux_dir)
          ∷ (codes "-I" ++ k.libbpf_include)
          ∷ codes "-emit-llvm"
          ∷ codes "-c"
          ∷ src
          ∷ codes "-o"
          ∷ bc
          ∷ []))

abbrev pub archive_path : Text → Text
archive_path out = join_path out (codes "libarena_c.a")

abbrev pub archive_command : Option Text → Text → List Text → Command
archive_command llvm_bin out bcs =
    command (tool_program llvm_bin (codes "llvm-ar")) (codes "rcs" ∷ archive_path out ∷ bcs)

module _ (b : Builder) where
  unfoldable pub print_reruns : List Text → Building b (Unit {0})
  print_reruns [] = pure tt
  print_reruns (l ∷ ls) = do println b (codes "cargo:rerun-if-changed=" ++ l); print_reruns ls

  -- A variable that cargo sets: `env::var(name).unwrap()`.
  abbrev pub cargo_var : Text → Building b Text
  cargo_var name = unwrap b.host (b.host.env_var name)

  abbrev pub missing_sources : Text → Text → Text
  missing_sources suffix la =
      codes "libarena"
      ++ (suffix ++ (codes " sources missing at " ++ (la ++ codes ": git submodule update --init")))

  abbrev pub not_archived : Text → Text → Text
  not_archived la e = codes "failed to archive libarena sources from " ++ (la ++ (codes ": " ++ e))

  -- The sources are there, and are packaged for host build scripts.
  unfoldable pub package_sources : Text → Text → Text → Building b (Unit {0})
  package_sources suffix la out = do
    found ← ask b.host (λ w. b.host.exists w (join_path la (codes "src/common.bpf.c")))
    if found
        then (do packed ← archive_bpf_sources b la out; unwrap_or_panic b (not_archived la) packed)
        else stop (panic_with (missing_sources suffix la))

  unfoldable pub read_knobs : Option Text → Text → Building b Knobs
  read_knobs llvm_bin out = do
    clang ← find_clang b llvm_bin
    user_vmlinux ← envv b (codes "LIBARENA_VMLINUX_H")
    vmlinux_h ← find_vmlinux b out user_vmlinux
    libbpf_include ← find_libbpf b
    stream ← find_stream b user_vmlinux
    arch ← find_arch b
    cpu ← find_cpu b
    pure (record {
      clang = clang;
      vmlinux_h = vmlinux_h;
      libbpf_include = libbpf_include;
      stream = stream;
      arch = arch;
      cpu = cpu;
    })

  unfoldable pub compile_all :
      Text → Text → Text → Knobs → List Text → List Text → Building b (List Text)
  compile_all root la out k [] bcs = pure bcs
  compile_all root la out k (src ∷ srcs) bcs = do
    stem ← unwrap b.host (file_stem src)
    let bc = with_extension (join_path out stem) (codes "bc")
    vmlinux_dir ← unwrap b.host (parent k.vmlinux_h)
    run b (compile_command root la k vmlinux_dir src bc)
    compile_all root la out k srcs (bcs ++ bc ∷ [])

  abbrev pub remove_archive : Text → Building b (Unit {0})
  remove_archive path s = (ok tt, record s { world = b.remove_file s.world path })

  -- The part for a BPF target.
  unfoldable pub build_archive : Text → Text → Text → Text → Building b (Unit {0})
  build_archive root suffix la out = do
    llvm_bin ← find_llvm_bin b
    k ← read_knobs llvm_bin out
    bcs ← compile_all root la out k (sources root la) []
    remove_archive (archive_path out)
    run b (archive_command llvm_bin out bcs)
    println b (codes "cargo:rustc-link-search=native=" ++ out)
    println b (
        codes "cargo:warning=libarena-rs: C side built with libarena"
        ++ (suffix
            ++ (codes " vmlinux.h=" ++ (k.vmlinux_h ++ (codes " stream-kfunc=" ++ k.stream)))))

  abbrev pub is_bpf : Bool
  is_bpf = elim (b.host.env_var (codes "CARGO_CFG_TARGET_ARCH")) [
    | none ↦ false
    | some arch ↦ text_eq arch (codes "bpf")
  ]

  unfoldable pub main : Building b (Unit {0})
  main = do
    print_reruns rerun_lines
    root ← cargo_var (codes "CARGO_MANIFEST_DIR")
    out ← cargo_var (codes "OUT_DIR")
    let snapshot = libarena_snapshot b root
    package_sources snapshot.0 snapshot.1 out
    if is_bpf then build_archive root snapshot.0 snapshot.1 out else pure tt
