-- ===== src/Assets/Files.antt =====
-- What the file system and the tar crate document, over the contents of files by their paths.
use libarena_rs.Common.{ℕ, ◌≡◌, ◌≢◌, false, Option, none, List, Text, codes, join_path, starts_with}
use libarena_rs.Build.Session.{done}
use libarena_rs.Assets.{Disk, removed, not_found}

abbrev pub Bytes : Type 0
Bytes = List ℕ

abbrev pub IsRelative : Text → Type 0
IsRelative p = starts_with (codes "/") p ≡ false

-- The path is that of no file below the directory.
abbrev pub IsOutside : Text → Text → Type 0
IsOutside dir path = (rel : Text) → IsRelative rel → path ≢ join_path dir rel

pub record IsDisk (d : Disk) (members : Bytes → Text → Option Bytes) : Type 1 where
  -- The path is absolute and goes through no link, `.` or `..`.
  pub IsResolved : Text → Type 0
  -- The content of the file that a resolved path names; a path that is not resolved names none.
  pub file : d.World → Text → Option Bytes
  -- A directory that was removed, or was not there, holds no file.
  pub removes :
      (w : d.World) (dir rel : Text)
      → IsRelative rel
      → (d.remove_dir_all w dir).0 ≡ removed
      → file (d.remove_dir_all w dir).1 (join_path dir rel) ≡ none
  pub misses :
      (w : d.World) (dir rel : Text)
      → IsRelative rel
      → (d.remove_dir_all w dir).0 ≡ not_found
      → file (d.remove_dir_all w dir).1 (join_path dir rel) ≡ none
  pub removes_within :
      (w : d.World) (dir path : Text)
      → IsResolved dir
      → IsOutside dir path
      → file (d.remove_dir_all w dir).1 path ≡ file w path
  -- Making a directory changes no file.
  pub creates : (w : d.World) (dir path : Text) → file (d.create_dir_all w dir).1 path ≡ file w path
  -- Unpacking writes the members of the archive below the directory, and nothing else.
  pub unpacks :
      (w : d.World) (archive : Bytes) (dir rel : Text) (content : Bytes)
      → IsResolved dir
      → IsRelative rel
      → (d.unpack w archive dir).0 ≡ done tt
      → members archive rel ≡ Option.some content
      → file (d.unpack w archive dir).1 (join_path dir rel) ≡ Option.some content
  pub unpacks_only :
      (w : d.World) (archive : Bytes) (dir rel : Text)
      → IsRelative rel
      → members archive rel ≡ none
      → file (d.unpack w archive dir).1 (join_path dir rel) ≡ file w (join_path dir rel)
  pub unpacks_within :
      (w : d.World) (archive : Bytes) (dir path : Text)
      → IsResolved dir
      → IsOutside dir path
      → file (d.unpack w archive dir).1 path ≡ file w path
