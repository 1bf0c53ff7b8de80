-- ===== src/Assets.antt =====
-- src/lib.rs, `build`: the packaged sources of libarena, extracted for host build scripts.
pub mod Files
pub mod Extract
pub mod Package
use libarena_rs.Common.{List, [], ◌∷◌, ◌++◌, Text, ℕ, codes, join_path}
use libarena_rs.Build.Session.{IoResult, done, error}

abbrev pub cflags : List Text
cflags =
    codes "-DENABLE_ATOMICS_TESTS"
    ∷ codes "-Wno-macro-redefined"
    ∷ codes "-Wno-missing-declarations"
    ∷ []

-- The end of `fs::remove_dir_all`: the kind of an error is looked at.
pub data Removal : Type 0 where
  removed not_found : Removal
  failed : Text → Removal

-- The file system, and `tar::Archive::unpack`.
pub record Disk : Type 1 where
  pub World : Type 0
  pub remove_dir_all : World → Text → Removal × World
  pub create_dir_all : World → Text → IoResult (Unit {0}) × World
  pub unpack : World → List ℕ → Text → IoResult (Unit {0}) × World

pub record BpfAssets : Type 0 where
  pub root : Text

-- Directory containing libarena's public headers.
unfoldable pub include_dir : BpfAssets → Text
include_dir a = join_path a.root (codes "include")

unfoldable pub source_dir : BpfAssets → Text
source_dir a = join_path a.root (codes "src")

unfoldable pub source : BpfAssets → Text → Text
unfolding source_dir
source a name = join_path (source_dir a) name

module _ (d : Disk) where
  abbrev then_return : Text → IoResult (Unit {0}) × d.World → IoResult BpfAssets × d.World
  then_return root (error e, w) = (error e, w)
  then_return root (done _, w) = (done (record { root = root }), w)

  abbrev then_unpack : List ℕ → Text → IoResult (Unit {0}) × d.World → IoResult BpfAssets × d.World
  then_unpack archive root (error e, w) = (error e, w)
  then_unpack archive root (done _, w) = then_return root (d.unpack w archive root)

  abbrev then_create : List ℕ → Text → Removal × d.World → IoResult BpfAssets × d.World
  then_create archive root (failed e, w) = (error e, w)
  then_create archive root (_, w) = then_unpack archive root (d.create_dir_all w root)

  -- `extract`, of the archive that the crate has embedded.
  unfoldable pub extract : List ℕ → d.World → Text → IoResult BpfAssets × d.World
  extract archive w out_dir =
      let root = join_path out_dir (codes "libarena-rs") in
      then_create archive root (d.remove_dir_all w root)
