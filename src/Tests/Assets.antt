-- ===== src/Tests/Assets.antt =====
-- A package of one source file, through a disk that holds one extracted package.
use libarena_rs.Common.{
  ◌≡◌, refl, true, ◌∙◌, ap, ◌≢◌, inl, inr, Option, none, some, [], ◌∷◌, ◌++◌, arith, Text, codes,
  text_eq, text_eq_iff, if◌then◌else◌, join_path, join_path-front, as_front, starts_with,
  Bool-cases,
}
use libarena_rs.Build.Session.{IoResult, done, error}
use libarena_rs.Assets.{Disk, Removal, removed, not_found, failed, extract}
use libarena_rs.Assets.Files.{Bytes, IsRelative, IsOutside, IsDisk}
use libarena_rs.Assets.Extract.{Extracted, extract-Extracted}

abbrev pub member : Text
member = codes "src/a"

-- The archive of a file is the file's content.
abbrev pub members : Bytes → Text → Option Bytes
members bytes m = if text_eq m member then some bytes else none

abbrev pub Extraction : Type 0
Extraction = Option (Text × Bytes)

abbrev pub file_of : Extraction → Text → Option Bytes
file_of none path = none
file_of (some (dir, bytes)) path = if text_eq path (join_path dir member) then some bytes else none

abbrev pub remove_of : Extraction → Text → Removal × Extraction
remove_of none dir = (not_found, none)
remove_of (some (old, bytes)) dir =
    if text_eq old dir then (removed, none) else (failed (codes "busy"), some (old, bytes))

abbrev pub unpack_of : Extraction → Bytes → Text → IoResult (Unit {0}) × Extraction
unpack_of none bytes dir = (done tt, some (dir, bytes))
unpack_of (some x) bytes dir = (error (codes "full"), some x)

abbrev pub disk : Disk
disk = record {
  World = Extraction;
  remove_dir_all = remove_of;
  create_dir_all = λ w dir. (done tt, w);
  unpack = unpack_of;
}

text_eq_cancel : (x a c : Text) → text_eq (x ++ a) (x ++ c) ≡ text_eq a c
unfolding text_eq
text_eq_cancel [] a c = refl
text_eq_cancel (z ∷ x) a c = ground (arith, text_eq_cancel x a c)

member_path :
    (dir rel : Text)
    → IsRelative rel
    → text_eq (join_path dir rel) (join_path dir member) ≡ text_eq rel member
member_path dir rel h =
    rw (join_path-front dir rel h, join_path-front dir member (unfold starts_with in refl))
      (text_eq_cancel (as_front dir) rel member)

pub removes_of :
    (w : Extraction) (dir : Text)
    → (remove_of w dir).0 ≢ failed (codes "busy")
    → (remove_of w dir).1 ≡ none
removes_of none dir h = refl
removes_of (some (old, bytes)) dir h = elim (Bool-cases (text_eq old dir)) [
  | inl same ↦ rw same refl
  | inr differ ↦ absurd (h (rw differ refl))
]

pub removes_within_of :
    (w : Extraction) (dir path : Text)
    → IsOutside dir path
    → file_of (remove_of w dir).1 path ≡ file_of w path
removes_within_of none dir path out = refl
removes_within_of (some (old, bytes)) dir path out = elim (Bool-cases (text_eq old dir)) [
  | inl same ↦ rw same (elim (Bool-cases (text_eq path (join_path old member))) [
    | inl there ↦
        let is_dir : old ≡ dir = (text_eq_iff old dir).0 same in
        let is_path : path ≡ join_path old member =
          (text_eq_iff path (join_path old member)).0 there in
        absurd
          (out member (unfold starts_with in refl) (is_path ∙ ap (λ x. join_path x member) is_dir))
    | inr away ↦ rw away refl
  ])
  | inr differ ↦ rw differ refl
]

pub unpacks_of :
    (w : Extraction) (bytes : Bytes) (dir rel : Text) (content : Bytes)
    → IsRelative rel
    → (unpack_of w bytes dir).0 ≡ done tt
    → members bytes rel ≡ some content
    → file_of (unpack_of w bytes dir).1 (join_path dir rel) ≡ some content
unpacks_of none bytes dir rel content h e found = rw (member_path dir rel h) found
unpacks_of (some x) bytes dir rel content h e found = absurd (cc e)

pub unpacks_only_of :
    (w : Extraction) (bytes : Bytes) (dir rel : Text)
    → IsRelative rel
    → members bytes rel ≡ none
    → file_of (unpack_of w bytes dir).1 (join_path dir rel) ≡ file_of w (join_path dir rel)
unpacks_only_of none bytes dir rel h missing = rw (member_path dir rel h) missing
unpacks_only_of (some x) bytes dir rel h missing = refl

pub unpacks_within_of :
    (w : Extraction) (bytes : Bytes) (dir path : Text)
    → IsOutside dir path
    → file_of (unpack_of w bytes dir).1 path ≡ file_of w path
unpacks_within_of none bytes dir path out =
    elim (Bool-cases (text_eq path (join_path dir member))) [
      | inl there ↦ absurd (
          out member (unfold starts_with in refl)
            ((text_eq_iff path (join_path dir member)).0 there))
      | inr away ↦ rw away refl
    ]
unpacks_within_of (some x) bytes dir path out = refl

unfoldable pub disk-IsDisk : IsDisk disk members
disk-IsDisk = record {
  IsResolved = λ p. starts_with (codes "out/") p ≡ true;
  file = file_of;
  removes = λ w dir rel h e. rw (removes_of w dir (λ f. cc (e, f))) refl;
  misses = λ w dir rel h e. rw (removes_of w dir (λ f. cc (e, f))) refl;
  removes_within = λ w dir path resolved. removes_within_of w dir path;
  creates = λ w dir path. refl;
  unpacks = λ w bytes dir rel content resolved. unpacks_of w bytes dir rel content;
  unpacks_only = unpacks_only_of;
  unpacks_within = λ w bytes dir path resolved. unpacks_within_of w bytes dir path;
}

abbrev content : Bytes
content = 7 ∷ 8 ∷ []

extracted :
    (extract disk content none (codes "out")).0 ≡ done (record { root = codes "out/libarena-rs" })
unfolding extract join_path starts_with
extracted = refl

extract-Extracted_example :
    Extracted disk members disk-IsDisk content
      (codes "out")
      (record { root = codes "out/libarena-rs" })
      none
      (extract disk content none (codes "out")).1
unfolding disk-IsDisk
extract-Extracted_example =
    extract-Extracted disk members disk-IsDisk content none (codes "out")
      (unfold join_path starts_with in refl) (record { root = codes "out/libarena-rs" }) extracted

-- A disk on which another package stands.
abbrev full : Extraction
full = some (codes "elsewhere", content)
