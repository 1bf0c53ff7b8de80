-- ===== src/Build/Sources.antt =====
-- The snapshot of libarena's sources that the features select, and its packaging.
use libarena_rs.Common.{[], Text, codes, join_path, if◌then◌else◌}
use libarena_rs.Linker.Session.{◌>>=◌}
use libarena_rs.Build.Session.{Builder, IoResult, Building, act, on_done}

abbrev pub bpf_archive : Text
bpf_archive = codes "libarena-bpf.tar"

module _ (b : Builder) where
  unfoldable pub libarena_snapshot : Text → Text × Text
  libarena_snapshot root =
      if b.has_var (codes "CARGO_FEATURE_COMPAT")
      then (codes "-compat", join_path root (codes "vendor/libarena-compat/libarena"))
      else ([], join_path root (codes "vendor/libarena/libarena"))

  unfoldable pub archive_bpf_sources : Text → Text → Building b (IoResult (Unit {0}))
  archive_bpf_sources libarena out_dir = do
    file ← act b (λ w. b.packer.create w (join_path out_dir bpf_archive))
    on_done b
        (λ archive. do
          with_include ← act b (λ w.
              b.packer.append_dir_all w archive (codes "include")
                (join_path libarena (codes "include")))
          on_done b
              (λ archive. do
                with_src ← act b (λ w.
                    b.packer.append_dir_all w archive (codes "src")
                      (join_path libarena (codes "src")))
                on_done b (λ archive. act b (λ w. b.packer.finish w archive)) with_src)
              with_include)
        file
