-- ===== src/Linker/Pipeline/Order/Inputs.antt =====
-- Where the bitcode that is linked comes from: the loop over the inputs in `main`, the library
-- directories and `extract`. A file is read at some time of the link, so that each fact names the
-- world that it was read in.
use libarena_rs.Common.{
  ℕ, suc, ◌≡◌, Bool, true, false, some, List, [], ◌∷◌, ◌++◌, Text, codes, decimal, map, find,
  keep_if, join_path,
}
use libarena_rs.Sort.{sort}
use libarena_rs.Linker.Session.{Host, is_bitcode, is_archive}
use libarena_rs.Linker.Tools.{Tools}
use libarena_rs.Linker.Pipeline.Stage.{p}

module _ (host : Host) where
  -- The sorted files of the directory that are bitcode.
  pub record AreMembers (dir : Text) (bcs : List Text) : Type 0 where
    pub listing_time : host.World
    pub entries : List Text
    pub listed : host.read_dir listing_time dir ≡ some entries
    pub reading_time : host.World
    pub members_are : bcs ≡ sort (keep_if (is_bitcode host reading_time) entries)

  pub record IsResolved (file path : Text) : Type 0 where
    pub time : host.World
    pub resolved : host.canonicalize time file ≡ some path

  abbrev pub IsOnce : (host.World → Text → Bool) → Text → Bool → Type 0
  IsOnce test file b = (w : host.World) × (test w file ≡ b)

  -- The first libarena_c.a that is there, in the order of the library directories.
  pub record IsFound (lib_dirs : List Text) (archive : Text) : Type 0 where
    pub time : host.World
    pub first :
        find (host.exists time) (map (λ d. join_path d (codes "libarena_c.a")) lib_dirs)
        ≡ some archive

  module _ (t : Tools) (tmp : Text) where
    -- The directory of the members of input `i`.
    abbrev pub rlib : ℕ → Text
    rlib i = p t tmp (codes "rlib" ++ decimal i)

    -- The bitcode of an input, and what is unpacked for it, into which directory.
    pub data IsInput (i : ℕ) (inp : Text) : List Text → List (Text × Text) → Type 0 where
      itself : IsOnce (is_bitcode host) inp true → IsInput i inp (inp ∷ []) []
      unpacked :
          {path : Text} {bcs : List Text}
          → IsOnce (is_bitcode host) inp false
          → IsOnce (is_archive host) inp true
          → IsResolved inp path
          → AreMembers (rlib i) bcs
          → IsInput i inp bcs ((path, rlib i) ∷ [])
      skipped :
          IsOnce (is_bitcode host) inp false
          → IsOnce (is_archive host) inp false
          → IsInput i inp [] []

    -- The same for the inputs from number `i` on, in their order.
    pub data AreInputs : ℕ → List Text → List Text → List (Text × Text) → Type 0 where
      no_inputs : {i : ℕ} → AreInputs i [] [] []
      input :
          {i : ℕ} {inp : Text} {rest bcs more : List Text} {us vs : List (Text × Text)}
          → IsInput i inp bcs us
          → AreInputs (suc i) rest more vs
          → AreInputs i (inp ∷ rest) (bcs ++ more) (us ++ vs)
