-- ===== src/Assets/Extract.antt =====
-- What `extract` leaves on the disk.
use mathlib.Core.Path.{subst}
use libarena_rs.Common.{
  ◌≡◌, refl, ◌∙◌, sym, ◌⊎◌, inl, inr, Option, none, Text, codes, join_path, Option-cases,
}
use libarena_rs.Build.Session.{IoResult, done, error}
use libarena_rs.Assets.{
  Disk, Removal, removed, not_found, failed, BpfAssets, extract, then_create, then_unpack,
  then_return,
}
use libarena_rs.Assets.Files.{Bytes, IsRelative, IsOutside, IsDisk}

module _ (d : Disk) (members : Bytes → Text → Option Bytes) (laws : IsDisk d members) where
  -- The files below the root are the members of the archive.
  pub record Extracted (archive : Bytes) (out_dir : Text) (a : BpfAssets) (before after : d.World)
      : Type 0 where
    pub root_is : a.root ≡ join_path out_dir (codes "libarena-rs")
    pub inside :
        (rel : Text) → IsRelative rel → laws.file after (join_path a.root rel) ≡ members archive rel
    pub outside :
        (path : Text) → IsOutside a.root path → laws.file after path ≡ laws.file before path

  module _ (archive : Bytes) (w : d.World) (out_dir : Text) where
    abbrev root : Text
    root = join_path out_dir (codes "libarena-rs")

    -- A world without files below the root.
    record Clear (v : d.World) : Type 0 where
      resolved : laws.IsResolved root
      none_inside : (rel : Text) → IsRelative rel → laws.file v (join_path root rel) ≡ none
      same_outside : (path : Text) → IsOutside root path → laws.file v path ≡ laws.file w path

    abbrev Whole : IoResult BpfAssets × d.World → Type 0
    Whole (r, v) = (a : BpfAssets) → r ≡ done a → Extracted archive out_dir a w v

    -- The archive's members where there was nothing.
    Unpacked : d.World → Type 0
    Unpacked v =
        ((rel : Text) → IsRelative rel → laws.file v (join_path root rel) ≡ members archive rel)
        × ((path : Text) → IsOutside root path → laws.file v path ≡ laws.file w path)

    returned :
        (p : IoResult (Unit {0}) × d.World)
        → (p.0 ≡ done tt → Unpacked p.1)
        → Whole (then_return d root p)
    unfolding Unpacked
    returned (error e, v) h a q = absurd (cc q)
    returned (done _, v) h a q =
        subst (λ r. Extracted archive out_dir r w v) (cc q)
          (record { root_is = refl; inside = (h refl).0; outside = (h refl).1 })

    unpack-Clear :
        (v : d.World)
        → Clear v
        → (d.unpack v archive root).0 ≡ done tt
        → Unpacked (d.unpack v archive root).1
    unfolding Unpacked
    unpack-Clear v clear ok = (
      λ rel relative. elim (Option-cases (members archive rel)) [
        | inl missing ↦
            laws.unpacks_only v archive root rel relative missing
            ∙ clear.none_inside rel relative
            ∙ sym missing
        | inr (content, found) ↦
            laws.unpacks v archive root rel content clear.resolved relative ok found ∙ sym found
      ],
      λ path out.
          laws.unpacks_within v archive root path clear.resolved out ∙ clear.same_outside path out,
    )

    made : (p : IoResult (Unit {0}) × d.World) → Clear p.1 → Whole (then_unpack d archive root p)
    made (error e, v) clear = λ a q. absurd (cc q)
    made (done _, v) clear = returned (d.unpack v archive root) (unpack-Clear v clear)

    create-Clear : (v : d.World) → Clear v → Clear (d.create_dir_all v root).1
    create-Clear v clear = record {
      resolved = clear.resolved;
      none_inside = λ rel relative. laws.creates v root _ ∙ clear.none_inside rel relative;
      same_outside = λ path out. laws.creates v root path ∙ clear.same_outside path out;
    }

    cleared :
        (p : Removal × d.World)
        → (p.0 ≡ removed → Clear p.1)
        → (p.0 ≡ not_found → Clear p.1)
        → Whole (then_create d archive root p)
    cleared (removed, v) hr hn = made (d.create_dir_all v root) (create-Clear v (hr refl))
    cleared (not_found, v) hr hn = made (d.create_dir_all v root) (create-Clear v (hn refl))
    cleared (failed e, v) hr hn = λ a q. absurd (cc q)

    -- When `extract` returns assets, their root is the directory `libarena-rs` below `out_dir`; where
    -- this is a resolved path, a path below the root has the content that the archive's member of that
    -- name has, and no file when there is none (a file of an older extraction is gone), and the files
    -- elsewhere are unchanged.
    pub extract-Extracted :
        laws.IsResolved root
        → (a : BpfAssets) → (extract d archive w out_dir).0 ≡ done a
        → Extracted archive out_dir a w (extract d archive w out_dir).1
    unfolding extract
    extract-Extracted resolved =
        cleared (d.remove_dir_all w root)
          (λ e. record {
            resolved = resolved;
            none_inside = λ rel relative. laws.removes w root rel relative e;
            same_outside = λ path out. laws.removes_within w root path resolved out;
          })
          (λ e. record {
            resolved = resolved;
            none_inside = λ rel relative. laws.misses w root rel relative e;
            same_outside = λ path out. laws.removes_within w root path resolved out;
          })

    -- An operation of `extract` failed with this error.
    abbrev pub FailedWith : Text → Type 0
    FailedWith e =
        ((d.remove_dir_all w root).0 ≡ failed e)
        ⊎ ((v : d.World) × ((d.create_dir_all v root).0 ≡ error e))
        ⊎ ((v : d.World) × ((d.unpack v archive root).0 ≡ error e))

    abbrev ErrorOf : IoResult BpfAssets × d.World → Type 0
    ErrorOf (r, _) = (e : Text) → r ≡ error e → FailedWith e

    returned_error :
        (p : IoResult (Unit {0}) × d.World)
        → ((e : Text) → p.0 ≡ error e → FailedWith e)
        → ErrorOf (then_return d root p)
    returned_error (error m, v) h = λ e q. h e (cc q)
    returned_error (done _, v) h = λ e q. absurd (cc q)

    made_error :
        (p : IoResult (Unit {0}) × d.World)
        → ((e : Text) → p.0 ≡ error e → FailedWith e)
        → ErrorOf (then_unpack d archive root p)
    made_error (error m, v) h = λ e q. h e (cc q)
    made_error (done _, v) h = returned_error (d.unpack v archive root) (λ e q. inr (inr (v, q)))

    cleared_error :
        (p : Removal × d.World)
        → ((e : Text) → p.0 ≡ failed e → FailedWith e)
        → ErrorOf (then_create d archive root p)
    cleared_error (removed, v) h = made_error (d.create_dir_all v root) (λ e q. inr (inl (v, q)))
    cleared_error (not_found, v) h = made_error (d.create_dir_all v root) (λ e q. inr (inl (v, q)))
    cleared_error (failed m, v) h = λ e q. h e (cc q)

    -- `extract` fails only with the error of removing the old root, of making it or of unpacking.
    extract_failed : (e : Text) → (extract d archive w out_dir).0 ≡ error e → FailedWith e
    unfolding extract
    extract_failed = cleared_error (d.remove_dir_all w root) (λ e q. inl q)
