-- ===== src/Linker/Session.antt =====
-- What main.rs does to the world: the operating system is a parameter, and a session carries its
-- state, the commands that `run` has run, and the lines printed on standard error.
pub mod Trace
pub mod Returning
pub mod Failing
pub mod Ending
use libarena_rs.Common.{
  ℕ, ◌≡◌, Bool, true, false, not, ◌&&◌, Option, none, some, List, [], ◌∷◌, ◌++◌, Text, codes,
  is_nil, if◌then◌else◌, starts_with,
}
use libarena_rs.Linker.Args.{Reading}

-- `std::process::Command`: program, arguments, and a working directory if one is set.
pub record Command : Type 0 where
  pub program : Text
  pub args : List Text
  pub dir : Option Text

-- The two streams are read as `String::from_utf8_lossy` reads them.
pub record Output : Type 0 where
  pub success : Bool
  pub stdout : Text
  pub stderr : Text

pub data Spawned : Type 0 where
  cannot_run : Text → Spawned
  ended : Output → Spawned

-- The operating system, and the texts that the build puts into the program.
pub record Host : Type 1 where
  pub World : Type 0
  pub args : List Text
  -- `env::var(name).ok()`; the environment of a process stays the same.
  pub env_var : Text → Option Text
  pub read : World → Text → Option (List ℕ)
  pub read_to_string : World → Text → Reading
  pub exists : World → Text → Bool
  pub canonicalize : World → Text → Option Text
  -- The paths of the entries of a directory that can be read.
  pub read_dir : World → Text → Option (List Text)
  pub remove_dir_all : World → Text → World
  -- `none` is success, and an error comes as its message.
  pub create_dir_all : World → Text → Option Text × World
  pub write : World → Text → Text → Bool × World
  pub output : World → Command → Spawned × World
  -- The `Debug` forms of a command and of its program.
  pub show_command : Command → Text
  pub show_program : Command → Text
  -- The embedded text of a script of linker/scripts.
  pub script_body : Text → Text

-- A command that the function `run` has run, and whether it succeeded. The commands that the source
-- starts otherwise (`llvm-config`, the probe of the kernel; bpftool and pkg-config in the build script)
-- are `spawn`, and are not listed.
pub record Ran : Type 0 where
  pub command : Command
  pub success : Bool

pub record Session (W : Type 0) : Type 0 where
  pub world : W
  pub ran : List Ran
  pub printed : List Text

-- A step returns, ends the process with status 1 and a message, or panics; the message of a panic is
-- kept where the program words it.
pub data Exit (A : Type 0) : Type 0 where
  ok : A → Exit A
  die : Text → Exit A
  panic : Exit A
  panic_with : Text → Exit A

abbrev pub Link : Type 0 → Type 0 → Type 0
Link W A = Session W → Exit A × Session W

module _ {W A : Type 0} where
  abbrev pub pure : A → Link W A
  pure a s = (ok a, s)

  abbrev pub stop : Exit A → Link W A
  stop e s = (e, s)

module _ {W A B : Type 0} where
  abbrev pub continue : Exit A → (A → Link W B) → Link W B
  continue (ok a) f s = f a s
  continue (die m) f s = (die m, s)
  continue panic f s = (panic, s)
  continue (panic_with m) f s = (panic_with m, s)

  infixl 5 ◌>>=◌ ◌>>◌
  unfoldable pub ◌>>=◌ : Link W A → (A → Link W B) → Link W B
  ◌>>=◌ m f s = let (e, s') = m s in continue e f s'

  abbrev pub ◌>>◌ : Link W A → Link W B → Link W B
  m >> n = m >>= λ _. n

module _ (host : Host) where
  -- A variable that is set and not empty.
  unfoldable pub envv : Text → Option Text
  envv name = elim (host.env_var name) [
    | none ↦ none
    | some v ↦ if not (is_nil v) then some v else none
  ]

  abbrev pub is_set : Text → Bool
  is_set name = elim (envv name) [ none ↦ false | some _ ↦ true ]

  abbrev pub envv_or : Text → Text → Text
  envv_or name d = elim (envv name) [ none ↦ d | some v ↦ v ]

  unfoldable pub verbose : Bool
  unfolding envv
  verbose = is_set (codes "ARENA_LINKER_VERBOSE")

  abbrev pub Linking : Type 0 → Type 0
  Linking A = Link host.World A

  abbrev pub eprintln : Text → Linking (Unit {0})
  eprintln line s = (ok tt, record s { printed = s.printed ++ line ∷ [] })

  abbrev pub when : Bool → Linking (Unit {0}) → Linking (Unit {0})
  when true m = m
  when false m = pure tt

  abbrev pub spawn : Command → Linking Spawned
  spawn c s = let (r, w) = host.output s.world c in (ok r, record s { world = w })

  abbrev pub log_run : Command → Bool → Linking (Unit {0})
  log_run c success s =
      (ok tt, record s { ran = s.ran ++ record { command = c; success = success } ∷ [] })

  -- What `run` does with the result of `cmd.output()`.
  after_run : Command → Spawned → Linking Text
  after_run c (cannot_run e) = do
    log_run c false
    stop (die (codes "cannot run " ++ (host.show_program c ++ (codes ": " ++ e))))
  after_run c (ended o) = elim o.success [
    | true ↦ do
      log_run c true
      when (verbose && not (is_nil o.stderr)) (eprintln o.stderr)
      pure o.stdout
    | false ↦ do
      log_run c false
      eprintln o.stderr
      stop (die (host.show_program c ++ codes " failed"))
  ]

  -- `run`: the standard output of a command that succeeds; any other ends the process.
  unfoldable pub run : Command → Linking Text
  unfolding after_run
  run c = do
    when verbose (eprintln (codes "arena-linker: " ++ host.show_command c))
    r ← spawn c
    after_run c r

  abbrev pub ask : {A : Type 0} → (host.World → A) → Linking A
  ask f s = (ok (f s.world), s)

  -- `option.unwrap()`.
  abbrev pub unwrap : {A : Type 0} → Option A → Linking A
  unwrap none = stop panic
  unwrap (some a) = pure a

  abbrev pub unwrap_ok : Bool → Linking (Unit {0})
  unwrap_ok true = pure tt
  unwrap_ok false = stop panic

  -- `fs::write(path, text).unwrap()`.
  unfoldable pub write_file : Text → Text → Linking (Unit {0})
  write_file path text s =
      let (done, w) = host.write s.world path text in unwrap_ok done (record s { world = w })

  -- `let _ = fs::remove_dir_all(path)`.
  unfoldable pub remove_dir : Text → Linking (Unit {0})
  remove_dir path s = (ok tt, record s { world = host.remove_dir_all s.world path })

  abbrev made_dir : Option Text → (Text → Linking (Unit {0})) → Linking (Unit {0})
  made_dir none f = pure tt
  made_dir (some e) f = f e

  unfoldable pub make_dir : Text → (Text → Linking (Unit {0})) → Linking (Unit {0})
  make_dir path f s =
      let (e, w) = host.create_dir_all s.world path in made_dir e f (record s { world = w })

  -- `fs::read(p).map(|b| b.starts_with(magic)).unwrap_or(false)`.
  abbrev has_magic : List ℕ → host.World → Text → Bool
  has_magic magic w p = elim (host.read w p) [ none ↦ false | some b ↦ starts_with magic b ]

  unfoldable pub is_bitcode : host.World → Text → Bool
  is_bitcode = has_magic (0x42 ∷ 0x43 ∷ 0xc0 ∷ 0xde ∷ [])

  unfoldable pub is_archive : host.World → Text → Bool
  is_archive = has_magic (codes "!<arch>\n")
