-- ===== src/Build/Knobs/Laws.antt =====
-- Where the knobs come from.
use libarena_rs.Common.{
  ◌≡◌, refl, ◌∙◌, sym, ◌&&◌, [], ◌∷◌, lines, trim, Bool, true, false, Option, none, some, Text,
  codes, join_path, if◌then◌else◌,
}
use libarena_rs.Linker.Session.{
  Command, Output, Spawned, cannot_run, ended, pure, stop, panic_with, ◌>>=◌, ◌>>◌,
}
use libarena_rs.Linker.Session
use libarena_rs.Linker.Session.Trace.{
  Gives, Gives-bind, Gives-pure, Gives-ask, Adds-quiet, Adds-panic_with, Adds-if, IsQuiet-spawn,
  Gives-spawn, IsQuiet-write_file,
}
use libarena_rs.Linker.Args.{Reading}
use libarena_rs.Linker.Tools.{command}
use libarena_rs.Build.Session.{Builder}
use libarena_rs.Build.Session.Trace.{Gives-envv}
use libarena_rs.Build.Knobs.{
  value_or, default_arch, tool_program, find_llvm_bin, find_clang, find_vmlinux, find_libbpf,
  find_stream, find_arch, find_cpu, is_none, include_dir, ends_with, any_line, has_impl, dumped,
  asked_include, detected_stream,
}

abbrev pub pkg_config : Command
pkg_config = command (codes "pkg-config") (codes "--variable=includedir" ∷ codes "libbpf" ∷ [])

module _ (b : Builder) where
  -- A variable of the environment that is set and not empty.
  abbrev pub var : Text → Option Text
  var n = Session.envv b.host n

  abbrev pub llvm_bin_of : Option Text → Option Text
  llvm_bin_of none = none
  llvm_bin_of (some p) = some (join_path p (codes "bin"))

  pub find_llvm_bin-Gives :
      Gives (find_llvm_bin b) (λ o. o ≡ llvm_bin_of (var (codes "LLVM_PREFIX")))
  unfolding find_llvm_bin
  find_llvm_bin-Gives = Gives-bind _ _ (Gives-envv b _) λ v e. Gives-pure _ (rw e refl)

  pub find_clang-Gives :
      (bin : Option Text)
      → Gives
          (find_clang b bin)
          (λ c. c ≡ value_or (tool_program bin (codes "clang")) (var (codes "CLANG")))
  unfolding find_clang
  find_clang-Gives bin = Gives-bind _ _ (Gives-envv b _) λ v e. Gives-pure _ (rw e)

  pub find_arch-Gives :
      Gives (find_arch b) (λ a. a ≡ value_or (default_arch b.arch) (var (codes "BPF_ARCH_DEFINE")))
  unfolding find_arch
  find_arch-Gives = Gives-bind _ _ (Gives-envv b _) λ v e. Gives-pure _ (rw e)

  pub find_cpu-Gives : Gives (find_cpu b) (λ c. c ≡ value_or (codes "v4") (var (codes "BPF_CPU")))
  unfolding find_cpu
  find_cpu-Gives = Gives-bind _ _ (Gives-envv b _) λ v e. Gives-pure _ (rw e)

  -- vmlinux.h is the file given, or the one that the build writes to its output directory.
  abbrev pub IsVmlinux : Text → Option Text → Text → Type 0
  IsVmlinux out user path = path ≡ value_or (join_path out (codes "vmlinux.h")) user

  dumped-Gives : (p btf tool : Text) (r : Spawned) → Gives (dumped b p btf tool r) (λ q. q ≡ p)
  dumped-Gives p btf tool (cannot_run e) = Adds-panic_with _
  dumped-Gives p btf tool (ended o) =
      Adds-if o.success _ _
        (λ _. Adds-quiet _ _ (IsQuiet-write_file b.host _ _) λ _. Gives-pure _ refl)
        (λ _. Adds-panic_with _)

  pub find_vmlinux-Gives :
      (out : Text) (user : Option Text) → Gives (find_vmlinux b out user) (IsVmlinux out user)
  unfolding find_vmlinux
  find_vmlinux-Gives out (some p) = Gives-pure _ refl
  find_vmlinux-Gives out none = Gives-bind _ _ (Gives-envv b _) λ btf _.
      Gives-bind _ _ (Gives-envv b _)
        λ tool _. Adds-quiet _ _ (IsQuiet-spawn b.host _) λ r. dumped-Gives _ _ _ r

  -- The directory of libbpf's headers: the one given, or the one that `pkg-config` names, or
  -- /usr/include where that cannot be run or fails.
  pub data IsInclude : Text → Type 0 where
    given : {dir : Text} → var (codes "LIBBPF_INCLUDE") ≡ some dir → IsInclude dir
    named :
        {w : b.host.World} {o : Output}
        → var (codes "LIBBPF_INCLUDE") ≡ none
        → (b.host.output w pkg_config).0 ≡ ended o
        → o.success ≡ true
        → IsInclude (trim o.stdout)
    usual :
        {w : b.host.World}
        → var (codes "LIBBPF_INCLUDE") ≡ none
        → ((o : Output) → (b.host.output w pkg_config).0 ≡ ended o → o.success ≡ false)
        → IsInclude (codes "/usr/include")

  include_dir-IsInclude :
      (w : b.host.World) (r : Spawned)
      → var (codes "LIBBPF_INCLUDE") ≡ none
      → (b.host.output w pkg_config).0 ≡ r
      → IsInclude (include_dir r)
  include_dir-IsInclude w (cannot_run e) unset q =
      usual {w = w} unset (λ o p. absurd (cc (sym q ∙ p)))
  include_dir-IsInclude w (ended o) unset q = ended_so o.success refl
    where
      ended_so :
          (c : Bool) → o.success ≡ c → IsInclude (if c then trim o.stdout else codes "/usr/include")
      ended_so true e = named unset q e
      ended_so false e =
          usual {w = w} unset (λ o' p. let same : o ≡ o' = cc (sym q ∙ p) in rw (← same) e)

  asked_include-Gives :
      (asked : Option Text)
      → var (codes "LIBBPF_INCLUDE") ≡ asked
      → Gives (asked_include b asked) IsInclude
  asked_include-Gives (some d) e = Gives-pure _ (given e)
  asked_include-Gives none e =
      Gives-bind _ _ (Gives-spawn b.host _) λ r (w, q). Gives-pure _ (include_dir-IsInclude w r e q)

  -- The headers are found in that directory.
  abbrev pub HasHelpers : Text → Type 0
  HasHelpers dir =
      (w : b.host.World) × (b.host.exists w (join_path dir (codes "bpf/bpf_helpers.h")) ≡ true)

  pub find_libbpf-Gives : Gives (find_libbpf b) (λ d. IsInclude d × HasHelpers d)
  unfolding find_libbpf
  find_libbpf-Gives = Gives-bind _ _ (Gives-envv b _) λ asked e.
      Gives-bind _ _ (asked_include-Gives asked (sym e)) λ d is_d.
        Gives-bind _ _ (Gives-ask b.host _) λ found (w, q).
          Adds-if found _ _ (λ yes_found. Gives-pure d (is_d, (w, q ∙ yes_found)))
            (λ _. Adds-panic_with _)

  -- A line of the running kernel's symbols is that of the older stream kfunc.
  abbrev pub has_older : b.host.World → Bool
  has_older w = elim (b.host.read_to_string w (codes "/proc/kallsyms")) [
    | Reading.failure e ↦ false
    | Reading.text t ↦ any_line (ends_with (codes " bpf_stream_vprintk_impl")) (lines t)
  ]

  -- What selects the stream kfunc: its variable, the use of a given vmlinux.h, or the running kernel.
  pub data IsStream (user : Option Text) : Text → Type 0 where
    given_stream : {v : Text} → var (codes "BPF_STREAM_KFUNC") ≡ some v → IsStream user v
    of_user :
        {v : Text}
        → var (codes "BPF_STREAM_KFUNC") ≡ none
        → user ≡ some v
        → IsStream user (codes "plain")
    of_kernel :
        (w : b.host.World)
        → var (codes "BPF_STREAM_KFUNC") ≡ none
        → user ≡ none
        → IsStream user (if has_older w then codes "impl" else codes "plain")

  impl_or_plain :
      (user : Option Text) (w : b.host.World)
      → var (codes "BPF_STREAM_KFUNC") ≡ none
      → IsStream user (if is_none user && has_impl b w then codes "impl" else codes "plain")
  unfolding has_impl
  impl_or_plain none w e = of_kernel w e refl
  impl_or_plain (some v) w e = of_user e refl

  detected_stream-Gives :
      (user v : Option Text)
      → var (codes "BPF_STREAM_KFUNC") ≡ v
      → Gives (detected_stream b user v) (IsStream user)
  detected_stream-Gives user (some v) e = Gives-pure _ (given_stream e)
  detected_stream-Gives user none e =
      Gives-bind _ _ (Gives-ask b.host _)
        λ impl (w, q). Gives-pure _ (rw (← q) (impl_or_plain user w e))

  pub find_stream-Gives : (user : Option Text) → Gives (find_stream b user) (IsStream user)
  unfolding find_stream
  find_stream-Gives user =
      Gives-bind _ _ (Gives-envv b _) λ v e. detected_stream-Gives user v (sym e)
