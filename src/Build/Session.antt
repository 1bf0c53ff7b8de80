-- ===== src/Build/Session.antt =====
-- What build.rs does to the world: the linker's session, with the lines on standard output as those
-- that are printed, and the functions of the script that read the environment and run commands.
use libarena_rs.Common.{
  Bool, true, false, Option, none, some, List, [], ◌∷◌, ◌++◌, Text, codes, not, is_nil,
}
pub mod Trace
pub mod Returning
pub mod Ending
use libarena_rs.Linker.Session.{
  Command, Output, Spawned, cannot_run, ended, Host, Session, Exit, ok, panic_with, Linking, pure,
  stop, ◌>>=◌, ◌>>◌, spawn, log_run,
}
use libarena_rs.Linker.Session

-- `io::Result`: a value, or the message of an error.
pub data IoResult (A : Type 0) : Type 0 where
  done : A → IoResult A
  error : Text → IoResult A

-- The tar crate's builder, over the files of a host.
pub record Packer (World : Type 0) : Type 1 where
  pub Archive : Type 0
  -- `File::create` and `tar::Builder::new`.
  pub create : World → Text → IoResult Archive × World
  pub append_dir_all : World → Archive → Text → Text → IoResult Archive × World
  pub finish : World → Archive → IoResult (Unit {0}) × World

pub record Builder : Type 1 where
  pub host : Host
  pub packer : Packer host.World
  -- `env::var_os(name).is_some()`, of the variables whose text does not matter.
  pub has_var : Text → Bool
  -- `env::consts::ARCH`
  pub arch : Text
  pub remove_file : host.World → Text → host.World

module _ (b : Builder) where
  abbrev pub Building : Type 0 → Type 0
  Building A = Linking b.host A

  abbrev pub println : Text → Building (Unit {0})
  println line s = (ok tt, record s { printed = s.printed ++ line ∷ [] })

  -- A variable that is set and not empty; cargo is told that it was read.
  unfoldable pub envv : Text → Building (Option Text)
  envv n = do println (codes "cargo:rerun-if-env-changed=" ++ n); pure (Session.envv b.host n)

  -- What `run` makes of the result of `c.output()`.
  unfoldable pub after_run : Command → Spawned → Building (Unit {0})
  after_run c (cannot_run e) = do
    log_run b.host c false
    stop (panic_with (codes "cannot run " ++ (b.host.show_program c ++ (codes ": " ++ e))))
  after_run c (ended o) = elim o.success [
    | true ↦ log_run b.host c true
    | false ↦ do
      log_run b.host c false
      stop (panic_with (b.host.show_command c ++ (codes " failed:\n" ++ o.stderr)))
  ]

  unfoldable pub run : Command → Building (Unit {0})
  unfolding after_run
  run c = do r ← spawn b.host c; after_run c r

  -- An operation that changes the world and gives a result.
  abbrev pub act : {A : Type 0} → (b.host.World → A × b.host.World) → Building A
  act f s = let (a, w) = f s.world in (ok a, record s { world = w })

  -- The operator `?` on an `io::Result`.
  abbrev pub on_done :
      {A B : Type 0} → (A → Building (IoResult B)) → IoResult A → Building (IoResult B)
  on_done f (done a) = f a
  on_done f (error e) = pure (error e)

  abbrev pub unwrap_or_panic : (Text → Text) → IoResult (Unit {0}) → Building (Unit {0})
  unwrap_or_panic message (done a) = pure tt
  unwrap_or_panic message (error e) = stop (panic_with (message e))
