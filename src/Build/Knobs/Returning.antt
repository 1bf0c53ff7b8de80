-- ===== src/Build/Knobs/Returning.antt =====
-- The knobs are read to the end.
use libarena_rs.Common.{◌≡◌, refl, true, Option, none, some, Text, codes, join_path}
use libarena_rs.Linker.Session.{Output, ended}
use libarena_rs.Linker.Session.Returning.{
  Returns, Finishes, Serves, Returns-pure, Finishes-pure, Returns-bind, Finishes-bind, Returns-ask,
  Returns-spawn, Finishes-ask, Finishes-write_file,
}
use libarena_rs.Build.Session.{Builder}
use libarena_rs.Build.Session.Returning.{Returns-envv}
use libarena_rs.Build.Knobs.{
  value_or, find_llvm_bin, find_clang, find_vmlinux, find_libbpf, find_stream, find_arch, find_cpu,
  dumped, detected_stream,
}
use libarena_rs.Build.Knobs.Laws.{var, IsVmlinux}

module _ (b : Builder) where
  pub find_llvm_bin-Finishes : Finishes (find_llvm_bin b)
  unfolding find_llvm_bin
  find_llvm_bin-Finishes = Returns-bind _ _ (Returns-envv b _) λ v e. Finishes-pure _

  pub find_clang-Finishes : (bin : Option Text) → Finishes (find_clang b bin)
  unfolding find_clang
  find_clang-Finishes bin = Returns-bind _ _ (Returns-envv b _) λ v e. Finishes-pure _

  pub find_arch-Finishes : Finishes (find_arch b)
  unfolding find_arch
  find_arch-Finishes = Returns-bind _ _ (Returns-envv b _) λ v e. Finishes-pure _

  pub find_cpu-Finishes : Finishes (find_cpu b)
  unfolding find_cpu
  find_cpu-Finishes = Returns-bind _ _ (Returns-envv b _) λ v e. Finishes-pure _

  detected_stream-Finishes : (user v : Option Text) → Finishes (detected_stream b user v)
  detected_stream-Finishes user (some v) = Finishes-pure v
  detected_stream-Finishes user none =
      Finishes-bind _ _ (Finishes-ask b.host _) λ i. Finishes-pure _

  pub find_stream-Finishes : (user : Option Text) → Finishes (find_stream b user)
  unfolding find_stream
  find_stream-Finishes user =
      Returns-bind _ _ (Returns-envv b _) λ v e. detected_stream-Finishes user v

  -- The headers are found in the directory of LIBBPF_INCLUDE.
  pub find_libbpf-Finishes :
      (dir : Text)
      → var b (codes "LIBBPF_INCLUDE") ≡ some dir
      → ((w : b.host.World) → b.host.exists w (join_path dir (codes "bpf/bpf_helpers.h")) ≡ true)
      → Finishes (find_libbpf b)
  unfolding find_libbpf
  find_libbpf-Finishes dir given there = Returns-bind _ _ (Returns-envv b _) λ v e.
      rw (e, given)
        (Returns-bind {P = λ d. d ≡ dir} _ _ (Returns-pure dir refl) λ d is_dir. rw is_dir (
          Returns-bind {P = λ found. found ≡ true} _ _ (Returns-ask b.host _ there)
            λ found q. rw q (Finishes-pure dir)))

  module _ (serves : Serves b.host) where
    dumped-Returns :
        (p btf tool : Text) (o : Output)
        → o.success ≡ true
        → Returns (dumped b p btf tool (ended o)) (λ q. q ≡ p)
    dumped-Returns p btf tool o e =
        rw e (Finishes-bind _ _ (Finishes-write_file b.host serves _ _) λ _. Returns-pure p refl)

    pub find_vmlinux-Returns :
        (out : Text) (user : Option Text) → Returns (find_vmlinux b out user) (IsVmlinux b out user)
    unfolding find_vmlinux
    find_vmlinux-Returns out (some p) = Returns-pure p refl
    find_vmlinux-Returns out none = Returns-bind _ _ (Returns-envv b _) λ btf _.
        Returns-bind _ _ (Returns-envv b _) λ tool _.
          Returns-bind {P = λ r. (o : Output) × (r ≡ ended o) × (o.success ≡ true)} _ _
            (Returns-spawn b.host _ (λ w. serves.succeeds w _))
            λ r (o, e, success).
              rw e (dumped-Returns _ _ (value_or (codes "bpftool") tool) o success)
