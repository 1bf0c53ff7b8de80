-- ===== src/Build/Script/Objects.antt =====
-- The object files of the sources, as `compile_all` names them.
use libarena_rs.Common.{
  ◌≡◌, refl, ◌∙◌, sym, ap, true, false, some, List, [], ◌∷◌, ◌++◌, arith, Text, codes, join_path,
  text_eq, All, file_stem, file_stem-below, IsName, with_extension, with_extension-front,
  join_path-front, stem, starts_with, is_file_name,
}

-- A name that stands in no directory of its own.
abbrev IsEntry : Text → Type 0
IsEntry n = IsName n × (is_file_name n ≡ true)

object_path :
    (out name : Text)
    → IsEntry name
    → starts_with (codes "/") name ≡ false
    → starts_with (codes "/") (stem name ++ codes ".bc") ≡ false
    → with_extension (join_path out name) (codes "bc") ≡ join_path out (stem name ++ codes ".bc")
object_path out name (h, proper) relative still =
    ap (λ x. with_extension x (codes "bc")) (join_path-front out name relative)
    ∙ with_extension-front out name h proper (codes "bc")
    ∙ sym (join_path-front out (stem name ++ codes ".bc") still)

-- A source, and the object that it is compiled to.
abbrev pub source_objects : Text → Text → Text → List (Text × Text)
source_objects root la out =
    (join_path la (codes "src/common.bpf.c"), join_path out (codes "common.bc"))
    ∷ (join_path la (codes "src/buddy.bpf.c"), join_path out (codes "buddy.bc"))
    ∷ (join_path root (codes "csrc/arena_glue.bpf.c"), join_path out (codes "arena_glue.bc"))
    ∷ []

abbrev pub first : Text × Text → Text
first (x, _) = x

abbrev pub second : Text × Text → Text
second (_, y) = y

-- What the script computes as the object of a source.
abbrev pub IsObject : Text → Text × Text → Type 0
IsObject out (src, bc) =
    (st : Text) × (file_stem src ≡ some st) × (with_extension (join_path out st) (codes "bc") ≡ bc)

pub objects : (root la out : Text) → All (IsObject out) (source_objects root la out)
unfolding stem is_file_name starts_with text_eq
objects root la out = (
  (
    codes "common.bpf",
    file_stem-below la (codes "rc") (codes "common.bpf.c") b's' refl refl (ground arith) refl,
    object_path out (codes "common.bpf") (ground arith, refl) refl refl,
  ),
  (
    (
      codes "buddy.bpf",
      file_stem-below la (codes "rc") (codes "buddy.bpf.c") b's' refl refl (ground arith) refl,
      object_path out (codes "buddy.bpf") (ground arith, refl) refl refl,
    ),
    (
      (
        codes "arena_glue.bpf",
        file_stem-below root (codes "src") (codes "arena_glue.bpf.c") b'c' refl refl (ground arith)
            refl,
        object_path out (codes "arena_glue.bpf") (ground arith, refl) refl refl,
      ),
      tt,
    ),
  ),
)
