-- ===== src/Build/Script/Returning.antt =====
-- A build returns where the operating system serves every request, and what ends it otherwise.
use libarena_rs.Common.{
  ◌≡◌, refl, true, Option, some, List, [], ◌∷◌, Text, codes, join_path, parent, file_stem, All, map,
}
use libarena_rs.Linker.Session.{Session, ok}
use libarena_rs.Linker.Session.Returning.{
  Returns, Finishes, Serves, Returns-pure, Finishes-pure, Returns-if, Returns-bind, Finishes-bind,
  Returns-ask, Returns-unwrap,
}
use libarena_rs.Build.Session.{Builder, done}
use libarena_rs.Build.Session.Returning.{Finishes-println, Returns-envv, Returns-act, Finishes-run}
use libarena_rs.Build.Sources.{libarena_snapshot, archive_bpf_sources}
use libarena_rs.Build.Knobs.{value_or}
use libarena_rs.Build.Knobs.Returning.{
  find_llvm_bin-Finishes, find_clang-Finishes, find_vmlinux-Returns, find_libbpf-Finishes,
  find_stream-Finishes, find_arch-Finishes, find_cpu-Finishes,
}
use libarena_rs.Build.Knobs.Laws.{var}
use libarena_rs.Build.Script.{
  Knobs, print_reruns, package_sources, read_knobs, compile_all, build_archive, is_bpf, main,
}
use libarena_rs.Build.Script.Objects.{IsObject, source_objects, first, objects}

module _ (b : Builder) where
  -- The tar crate packs what it is given.
  pub record Packs : Type 0 where
    pub creates :
        (w : b.host.World) (path : Text)
        → (a : b.packer.Archive) × ((b.packer.create w path).0 ≡ done a)
    pub appends :
        (w : b.host.World) (a : b.packer.Archive) (name path : Text)
        → (c : b.packer.Archive) × ((b.packer.append_dir_all w a name path).0 ≡ done c)
    pub finishes : (w : b.host.World) (a : b.packer.Archive) → (b.packer.finish w a).0 ≡ done tt

  -- What a build for BPF needs of its environment.
  pub record HasHeaders (out : Text) : Type 0 where
    pub libbpf : Text
    pub libbpf_given : var b (codes "LIBBPF_INCLUDE") ≡ some libbpf
    pub helpers :
        (w : b.host.World) → b.host.exists w (join_path libbpf (codes "bpf/bpf_helpers.h")) ≡ true
    pub vmlinux_dir : Text
    pub vmlinux_in :
        parent (value_or (join_path out (codes "vmlinux.h")) (var b (codes "LIBARENA_VMLINUX_H")))
        ≡ some vmlinux_dir

  pub print_reruns-Finishes : (ls : List Text) → Finishes (print_reruns b ls)
  unfolding print_reruns
  print_reruns-Finishes [] = Finishes-pure tt
  print_reruns-Finishes (l ∷ ls) =
      Finishes-bind _ _ (Finishes-println b _) λ _. print_reruns-Finishes ls

  module _ (serves : Serves b.host) (packs : Packs) where
    archive_bpf_sources-Returns :
        (la out : Text) → Returns (archive_bpf_sources b la out) (λ r. r ≡ done tt)
    unfolding archive_bpf_sources
    archive_bpf_sources-Returns la out =
        Returns-bind {P = λ r. (a : b.packer.Archive) × (r ≡ done a)} _ _
          (Returns-act b _ (λ w. packs.creates w _))
          λ r (a, e). rw e (
            Returns-bind {P = λ r. (a : b.packer.Archive) × (r ≡ done a)} _ _
              (Returns-act b _ (λ w. packs.appends w a _ _))
              λ r (c, q). rw q (
                Returns-bind {P = λ r. (a : b.packer.Archive) × (r ≡ done a)} _ _
                  (Returns-act b _ (λ w. packs.appends w c _ _))
                  λ r (d, p). rw p (Returns-act b _ (λ w. packs.finishes w d))))

    package_sources-Finishes :
        (suffix la out : Text)
        → ((w : b.host.World) → b.host.exists w (join_path la (codes "src/common.bpf.c")) ≡ true)
        → Finishes (package_sources b suffix la out)
    unfolding package_sources
    package_sources-Finishes suffix la out there =
        Returns-bind {P = λ found. found ≡ true} _ _ (Returns-ask b.host _ there) λ found e.
          rw e
            (Returns-bind _ _ (archive_bpf_sources-Returns la out) λ r q. rw q (Finishes-pure tt))

    read_knobs-Returns :
        (bin : Option Text) (out : Text) (h : HasHeaders out)
        → Returns (read_knobs b bin out) (λ k. parent k.vmlinux_h ≡ some h.vmlinux_dir)
    unfolding read_knobs
    read_knobs-Returns bin out h = Finishes-bind _ _ (find_clang-Finishes b bin) λ clang.
        Returns-bind _ _ (Returns-envv b _) λ user u.
          Returns-bind _ _ (find_vmlinux-Returns b serves out user) λ vmlinux v.
            Finishes-bind _ _ (find_libbpf-Finishes b h.libbpf h.libbpf_given h.helpers) λ libbpf.
              Finishes-bind _ _ (find_stream-Finishes b user) λ stream.
                Finishes-bind _ _ (find_arch-Finishes b) λ arch.
                  Finishes-bind _ _ (find_cpu-Finishes b)
                    λ cpu. Returns-pure _ (rw (v, u) h.vmlinux_in)

    compile_all-Finishes :
        (root la out : Text) (k : Knobs) (dir : Text)
        → parent k.vmlinux_h ≡ some dir
        → (pairs : List (Text × Text)) (bcs : List Text) → All (IsObject out) pairs
        → Finishes (compile_all b root la out k (map first pairs) bcs)
    unfolding compile_all
    compile_all-Finishes root la out k dir here [] bcs h = Finishes-pure bcs
    compile_all-Finishes root la out k dir here ((src, bc) ∷ pairs) bcs ((st, is_stem, is_bc), h) =
        Returns-bind {P = λ _. Unit {0}} _ _
          (Returns-unwrap b.host (file_stem src) (st, is_stem, tt))
          λ st' _.
            Returns-bind {P = λ _. Unit {0}} _ _
              (Returns-unwrap b.host (parent k.vmlinux_h) (dir, here, tt))
              λ dir' _.
                Finishes-bind _ _ (Finishes-run b serves _)
                  λ _. compile_all-Finishes root la out k dir here pairs _ h

    build_archive-Finishes :
        (root suffix la out : Text) → HasHeaders out → Finishes (build_archive b root suffix la out)
    unfolding build_archive
    build_archive-Finishes root suffix la out h =
        Finishes-bind _ _ (find_llvm_bin-Finishes b) λ bin.
          Returns-bind _ _ (read_knobs-Returns bin out h) λ k here.
            Finishes-bind _ _
              (compile_all-Finishes root la out k h.vmlinux_dir here (source_objects root la out) []
                (objects root la out))
              λ bcs.
                Finishes-bind _ _ (record { at = λ s. (tt, refl, tt) })
                  λ _.
                    Finishes-bind _ _ (Finishes-run b serves _)
                      λ _. Finishes-bind _ _ (Finishes-println b _) λ _. Finishes-println b _

    -- A build whose operating system serves every request, whose sources are there and whose headers
    -- are where LIBBPF_INCLUDE says returns, for BPF and for any other target.
    pub build_returns :
        (root out : Text)
        → b.host.env_var (codes "CARGO_MANIFEST_DIR") ≡ some root
        → b.host.env_var (codes "OUT_DIR") ≡ some out
        → ((w : b.host.World)
            → b.host.exists w (join_path (libarena_snapshot b root).1 (codes "src/common.bpf.c"))
              ≡ true)
        → HasHeaders out
        → (s : Session b.host.World) → (main b s).0 ≡ ok tt
    build_returns root out is_root is_out there h s = let (_, e, _) = main_finishes.at s in e
      where
        main_finishes : Finishes (main b)
        main_finishes =
            unfold main in
            Finishes-bind _ _ (print_reruns-Finishes _) λ _.
              Returns-bind {P = λ r. r ≡ root} _ _ (Returns-unwrap b.host _ (root, is_root, refl))
                λ r is_r. rw is_r (
                  Returns-bind {P = λ o. o ≡ out} _ _ (Returns-unwrap b.host _ (out, is_out, refl))
                    λ o is_o. rw is_o (
                      Finishes-bind _ _ (package_sources-Finishes _ _ out there) λ _.
                        Returns-if (is_bpf b) _ _ (λ _. build_archive-Finishes root _ _ out h)
                          (λ _. Finishes-pure tt)))
