-- ===== src/Build/Failing.antt =====
-- A build stops at the first command that fails.
use libarena_rs.Common.{
  ◌≡◌, refl, Option, none, some, List, [], ◌∷◌, ◌++◌, Text, ◌⊎◌, inl, inr, Bool-cases,
}
use libarena_rs.Linker.Session.{Command, Spawned, cannot_run, ended, Ran, Session, ◌>>=◌}
use libarena_rs.Linker.Session.Trace.{
  IsQuiet, IsQuiet-bind, IsQuiet-pure, IsQuiet-stop, IsQuiet-if, IsQuiet-ask, IsQuiet-unwrap,
  IsQuiet-spawn, IsQuiet-write_file,
}
use libarena_rs.Linker.Session.Failing.{
  by_panic, Stops, Stops-failed, Stops-quiet, Stops-bind, Stops-of_quiet, Stops-if, Succeeded,
  Failed,
}
use libarena_rs.Build.Session.{Builder, run, after_run, envv}
use libarena_rs.Build.Session.Trace.{IsQuiet-println}
use libarena_rs.Build.Knobs.{
  find_llvm_bin, find_clang, find_vmlinux, dumped, find_libbpf, asked_include, find_stream,
  detected_stream, find_arch, find_cpu,
}
use libarena_rs.Build.Script.{Knobs, read_knobs, compile_all, build_archive, is_bpf, main}
use libarena_rs.Build.Script.Order.{
  print_reruns-IsQuiet, package_sources-IsQuiet, remove_archive-IsQuiet,
}

module _ (b : Builder) where
  after_run-Stops : (c : Command) (r : Spawned) → Stops by_panic (after_run b c r)
  unfolding after_run
  after_run-Stops c (cannot_run e) =
      unfold ◌>>=◌ in
      Stops-failed b.host by_panic (after_run b c (cannot_run e)) c _ (λ s. (refl, refl))
  after_run-Stops c (ended o) = elim (Bool-cases o.success) [
    | inl e ↦ rw (after_run, e) (record { at = λ s. (_, refl, inl (refl, tt)) })
    | inr e ↦
        rw (after_run, e) (unfold ◌>>=◌ in Stops-failed b.host by_panic _ c _ (λ s. (refl, refl)))
  ]

  run-Stops : (c : Command) → Stops by_panic (run b c)
  unfolding run
  run-Stops c = Stops-quiet _ _ (IsQuiet-spawn b.host c) λ r. after_run-Stops c r

  envv-IsQuiet : (n : Text) → IsQuiet (envv b n)
  unfolding envv
  envv-IsQuiet n = IsQuiet-bind _ _ (IsQuiet-println b _) λ _. IsQuiet-pure _

  find_llvm_bin-IsQuiet : IsQuiet (find_llvm_bin b)
  unfolding find_llvm_bin
  find_llvm_bin-IsQuiet = IsQuiet-bind _ _ (envv-IsQuiet _) λ _. IsQuiet-pure _

  find_clang-IsQuiet : (bin : Option Text) → IsQuiet (find_clang b bin)
  unfolding find_clang
  find_clang-IsQuiet bin = IsQuiet-bind _ _ (envv-IsQuiet _) λ _. IsQuiet-pure _

  dumped-IsQuiet : (p btf tool : Text) (r : Spawned) → IsQuiet (dumped b p btf tool r)
  dumped-IsQuiet p btf tool (cannot_run e) = IsQuiet-stop _
  dumped-IsQuiet p btf tool (ended o) =
      IsQuiet-if o.success _ _
        (IsQuiet-bind _ _ (IsQuiet-write_file b.host p o.stdout) λ _. IsQuiet-pure _)
        (IsQuiet-stop _)

  find_vmlinux-IsQuiet : (out : Text) (user : Option Text) → IsQuiet (find_vmlinux b out user)
  unfolding find_vmlinux
  find_vmlinux-IsQuiet out (some p) = IsQuiet-pure p
  find_vmlinux-IsQuiet out none = IsQuiet-bind _ _ (envv-IsQuiet _) λ btf.
      IsQuiet-bind _ _ (envv-IsQuiet _)
        λ tool. IsQuiet-bind _ _ (IsQuiet-spawn b.host _) λ r. dumped-IsQuiet _ _ _ r

  asked_include-IsQuiet : (asked : Option Text) → IsQuiet (asked_include b asked)
  asked_include-IsQuiet (some dir) = IsQuiet-pure dir
  asked_include-IsQuiet none = IsQuiet-bind _ _ (IsQuiet-spawn b.host _) λ _. IsQuiet-pure _

  find_libbpf-IsQuiet : IsQuiet (find_libbpf b)
  unfolding find_libbpf
  find_libbpf-IsQuiet = IsQuiet-bind _ _ (envv-IsQuiet _) λ asked.
      IsQuiet-bind _ _ (asked_include-IsQuiet asked) λ dir.
        IsQuiet-bind _ _ (IsQuiet-ask b.host _)
          λ found. IsQuiet-if found _ _ (IsQuiet-pure _) (IsQuiet-stop _)

  detected_stream-IsQuiet : (user given : Option Text) → IsQuiet (detected_stream b user given)
  detected_stream-IsQuiet user (some v) = IsQuiet-pure v
  detected_stream-IsQuiet user none = IsQuiet-bind _ _ (IsQuiet-ask b.host _) λ _. IsQuiet-pure _

  find_stream-IsQuiet : (user : Option Text) → IsQuiet (find_stream b user)
  unfolding find_stream
  find_stream-IsQuiet user =
      IsQuiet-bind _ _ (envv-IsQuiet _) λ given. detected_stream-IsQuiet user given

  find_arch-IsQuiet : IsQuiet (find_arch b)
  unfolding find_arch
  find_arch-IsQuiet = IsQuiet-bind _ _ (envv-IsQuiet _) λ _. IsQuiet-pure _

  find_cpu-IsQuiet : IsQuiet (find_cpu b)
  unfolding find_cpu
  find_cpu-IsQuiet = IsQuiet-bind _ _ (envv-IsQuiet _) λ _. IsQuiet-pure _

  read_knobs-IsQuiet : (bin : Option Text) (out : Text) → IsQuiet (read_knobs b bin out)
  unfolding read_knobs
  read_knobs-IsQuiet bin out = IsQuiet-bind _ _ (find_clang-IsQuiet bin) λ clang.
      IsQuiet-bind _ _ (envv-IsQuiet _) λ user.
        IsQuiet-bind _ _ (find_vmlinux-IsQuiet out user) λ vmlinux.
          IsQuiet-bind _ _ find_libbpf-IsQuiet λ libbpf.
            IsQuiet-bind _ _ (find_stream-IsQuiet user) λ stream.
              IsQuiet-bind _ _ find_arch-IsQuiet
                λ arch. IsQuiet-bind _ _ find_cpu-IsQuiet λ cpu. IsQuiet-pure _

  compile_all-Stops :
      (root la out : Text) (k : Knobs) (srcs bcs : List Text)
      → Stops by_panic (compile_all b root la out k srcs bcs)
  unfolding compile_all
  compile_all-Stops root la out k [] bcs = Stops-of_quiet _ (IsQuiet-pure _)
  compile_all-Stops root la out k (src ∷ srcs) bcs =
      Stops-quiet _ _ (IsQuiet-unwrap b.host _) λ stem.
        Stops-quiet _ _ (IsQuiet-unwrap b.host _)
          λ dir. Stops-bind _ _ (run-Stops _) λ _. compile_all-Stops root la out k srcs _

  build_archive-Stops :
      (root suffix la out : Text) → Stops by_panic (build_archive b root suffix la out)
  unfolding build_archive
  build_archive-Stops root suffix la out = Stops-quiet _ _ find_llvm_bin-IsQuiet λ bin.
      Stops-quiet _ _ (read_knobs-IsQuiet bin out) λ k.
        Stops-bind _ _ (compile_all-Stops root la out k _ []) λ bcs.
          Stops-quiet _ _ (remove_archive-IsQuiet b _) λ _.
            Stops-bind _ _ (run-Stops _) λ _.
              Stops-of_quiet _ (IsQuiet-bind _ _ (IsQuiet-println b _) λ _. IsQuiet-println b _)

  main-Stops : Stops by_panic (main b)
  unfolding main
  main-Stops = Stops-quiet _ _ (print_reruns-IsQuiet b _) λ _.
      Stops-quiet _ _ (IsQuiet-unwrap b.host _) λ root.
        Stops-quiet _ _ (IsQuiet-unwrap b.host _) λ out.
          Stops-quiet _ _ (package_sources-IsQuiet b _ _ out) λ _.
            Stops-if (is_bpf b) _ _ (build_archive-Stops root _ _ out)
              (Stops-of_quiet _ (IsQuiet-pure tt))

  -- However a build ends, the commands that it has run by `run`, which are the compilations and the
  -- archiver, all succeeded, or the last of them failed, those before it succeeded, and the build
  -- panicked with a message: where a compilation fails, no other is begun, and nothing is archived.
  pub build_stops :
      (s : Session b.host.World)
      → (xs : List Ran) × ((main b s).1.ran ≡ s.ran ++ xs)
        × (Succeeded xs ⊎ Failed by_panic (main b s).0 xs)
  build_stops s = main-Stops.at s
