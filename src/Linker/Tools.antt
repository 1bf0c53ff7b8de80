-- ===== src/Linker/Tools.antt =====
-- `Tools`, the commands that the linker builds, and `extract`.
pub mod Laws
use libarena_rs.Common.{
  Bool, true, false, not, Option, none, some, List, [], ◌∷◌, ◌++◌, map, Text, codes, is_nil,
  keep_if, if◌then◌else◌, join_path, trim,
}
use libarena_rs.Sort.{sort}
use libarena_rs.Linker.Session.{
  Command, Output, Spawned, cannot_run, ended, Host, Session, Exit, panic, Linking, pure, stop,
  ◌>>=◌, ◌>>◌, envv, envv_or, spawn, run, ask, unwrap, make_dir, is_bitcode,
}

pub record Tools : Type 0 where
  pub bin : Option Text
  pub python : Text

abbrev pub command : Text → List Text → Command
command program args = record { program = program; args = args; dir = none }

module _ (host : Host) where
  -- The directory that `llvm-config --bindir` prints, if it runs and succeeds.
  unfoldable pub bindir : Spawned → Option Text
  bindir (cannot_run e) = none
  bindir (ended o) = if o.success then some (trim o.stdout) else none

  find_bin : Option Text → Linking host (Option Text)
  find_bin (some p) = pure (some (join_path p (codes "bin")))
  find_bin none = do
    r ← spawn host (command (codes "llvm-config") (codes "--bindir" ∷ []))
    pure (bindir r)

  -- `Tools::find`.
  unfoldable pub find_tools : Linking host Tools
  unfolding bindir find_bin
  find_tools = do
    bin ← find_bin (envv host (codes "LLVM_PREFIX"))
    pure (record { bin = bin; python = envv_or host (codes "PYTHON") (codes "python3") })

-- `Tools::tool`, with the arguments that are put behind it.
unfoldable pub tool : Tools → Text → List Text → Command
tool t name args = elim t.bin [
  | some b ↦ command (join_path b name) args
  | none ↦ command name args
]

-- A script under the Python interpreter: the closure `py`.
unfoldable pub py : Tools → Text → List Text → Command
py t script args = command t.python (script ∷ args)

-- `llvm-ar x` in the directory that the members go to.
unfoldable pub unpack_command : Tools → Text → Text → Command
unfolding tool
unpack_command t archive dir = record (tool t (codes "llvm-ar") (codes "x" ∷ archive ∷ [])) {
  dir = some dir;
}

module _ (host : Host) where
  -- The archive's bitcode members, sorted. All lie in one directory, where the order of paths is
  -- that of their texts.
  unfoldable pub extract : Tools → Text → Text → Linking host (List Text)
  extract t archive dir = do
    make_dir host dir (λ e. stop panic)
    full ← ask host (λ w. host.canonicalize w archive)
    path ← unwrap host full
    run host (unpack_command t path dir)
    listing ← ask host (λ w. host.read_dir w dir)
    entries ← unwrap host listing
    members ← ask host (λ w. keep_if (is_bitcode host w) entries)
    pure (sort members)
