-- ===== src/Build/Handover.antt =====
-- From the build script to the linker: the archive of libarena's bitcode.
use libarena_rs.Common.{◌≡◌, true, Option, List, [], ◌∷◌, ◌++◌, Text, codes}
use libarena_rs.Linker.Session.{Host, Session, Output, ended, ◌>>=◌, ◌>>◌}
use libarena_rs.Linker.Tools.{Tools}
use libarena_rs.Build.Session.{Builder, Building, println, run}
use libarena_rs.Build.Script.{Knobs, archive_path, archive_command}

-- The linker's process: the operating system of the build, with an environment and arguments.
abbrev pub linker_of : Builder → (Text → Option Text) → List Text → Host
linker_of b env args = record b.host { env_var = env; args = args }

module _ (b : Builder) (out : Text) where
  -- `llvm-ar rcs` that succeeds leaves its archive.
  abbrev pub Archives : Type 0
  Archives =
      (w : b.host.World) (bin : Option Text) (bcs : List Text) (o : Output)
      → (b.host.output w (archive_command bin out bcs)).0 ≡ ended o
      → o.success ≡ true
      → b.host.exists (b.host.output w (archive_command bin out bcs)).1 (archive_path out) ≡ true

  -- The archive is there, and cargo was told of its directory.
  pub record HandedOver (s : Session b.host.World) : Type 0 where
    pub built : b.host.exists s.world (archive_path out) ≡ true
    pub before : List Text
    pub last : Text
    pub told :
        s.printed ≡ (before ++ (codes "cargo:rustc-link-search=native=" ++ out) ∷ []) ++ last ∷ []

  -- The lines behind the archiver.
  abbrev announce : Text → Knobs → Building b (Unit {0})
  announce suffix k = do
    println b (codes "cargo:rustc-link-search=native=" ++ out)
    println b (
        codes "cargo:warning=libarena-rs: C side built with libarena"
        ++ (suffix
            ++ (codes " vmlinux.h=" ++ (k.vmlinux_h ++ (codes " stream-kfunc=" ++ k.stream)))))

  module _ (archives : Archives) where
    -- The archiver and the lines behind it.
    abbrev archive_and_announce : Text → Knobs → Option Text → List Text → Building b (Unit {0})
    archive_and_announce suffix k bin bcs =
        run b (archive_command bin out bcs) >>= λ _. announce suffix k
