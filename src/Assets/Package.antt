-- ===== src/Assets/Package.antt =====
-- The package that the build script writes, and what `extract` makes of it.
use libarena_rs.Common.{
  ℕ, ◌≡◌, refl, ◌∙◌, sym, ap, ◌≢◌, Option, some, List, [], ◌∷◌, ◌++◌, Text, codes, join_path,
  join_path-front, as_front, starts_with, arith, join_path_assoc,
}
use libarena_rs.Linker.Session.{Session, ok, Ran, ◌>>=◌}
use libarena_rs.Build.Session.{Builder, Building, IoResult, done, error, act, on_done}
use libarena_rs.Build.Sources.{archive_bpf_sources, bpf_archive}
use libarena_rs.Assets.{Disk, BpfAssets, extract, source, source_dir, include_dir}
use libarena_rs.Assets.Files.{Bytes, IsRelative, IsOutside, IsDisk}
use libarena_rs.Assets.Extract.{extract-Extracted}

-- What the tar crate documents of its builder, over the contents of files.
pub record IsPacker (b : Builder) (members : Bytes → Text → Option Bytes) : Type 1 where
  pub IsResolved : Text → Type 0
  -- The content of the file that a resolved path names; a path that is not resolved names none.
  pub file : b.host.World → Text → Option Bytes
  -- The file that an archive is written to, and its members so far.
  pub target : b.packer.Archive → Text
  pub contents : b.packer.Archive → Text → Option Bytes
  pub creates :
      (w : b.host.World) (path : Text) (a : b.packer.Archive)
      → (b.packer.create w path).0 ≡ done a
      → target a ≡ path
  pub creates_only :
      (w : b.host.World) (path other : Text)
      → IsResolved path
      → other ≢ path
      → file (b.packer.create w path).1 other ≡ file w other
  -- The files of a directory become members below a name; nothing is said of links.
  pub appends :
      (w : b.host.World) (a c : b.packer.Archive) (name dir rel : Text)
      → (b.packer.append_dir_all w a name dir).0 ≡ done c
      → IsResolved dir
      → IsRelative rel
      → (bytes : Bytes) → file w (join_path dir rel) ≡ some bytes
      → contents c (join_path name rel) ≡ some bytes
  pub appends_below :
      (w : b.host.World) (a c : b.packer.Archive) (name dir member : Text)
      → (b.packer.append_dir_all w a name dir).0 ≡ done c
      → IsOutside name member
      → contents c member ≡ contents a member
  pub appends_to :
      (w : b.host.World) (a c : b.packer.Archive) (name dir : Text)
      → (b.packer.append_dir_all w a name dir).0 ≡ done c
      → target c ≡ target a
  pub appends_only :
      (w : b.host.World) (a : b.packer.Archive) (name dir other : Text)
      → IsResolved (target a)
      → other ≢ target a
      → file (b.packer.append_dir_all w a name dir).1 other ≡ file w other
  -- A finished archive is a file that holds the members.
  pub finishes :
      (w : b.host.World) (a : b.packer.Archive)
      → IsResolved (target a)
      → (b.packer.finish w a).0 ≡ done tt
      → (bytes : Bytes) × (file (b.packer.finish w a).1 (target a) ≡ some bytes)
        × ((m : Text) → members bytes m ≡ contents a m)

module _ (b : Builder) where
  -- What holds of the world behind a step that started in `w` and gave no error.
  record Leaves {A : Type 0} (m : Building b (IoResult A)) (w : b.host.World)
      (P : A → b.host.World → Type 0) : Type 0 where
    at :
        (ran : List Ran) (printed : List Text) (a : A)
        → (m (record { world = w; ran = ran; printed = printed })).0 ≡ ok (done a)
        → P a (m (record { world = w; ran = ran; printed = printed })).1.world

  Leaves-act :
      {A : Type 0} {P : A → b.host.World → Type 0} (f : b.host.World → IoResult A × b.host.World)
      (w : b.host.World)
      → ((a : A) → (f w).0 ≡ done a → P a (f w).1)
      → Leaves (act b f) w P
  Leaves-act f w h = record { at = λ ran printed a e. h a (cc e) }

  Leaves-then :
      {A B : Type 0} {P : B → b.host.World → Type 0} (f : b.host.World → IoResult A × b.host.World)
      (k : A → Building b (IoResult B)) (w : b.host.World)
      → ((a : A) → (f w).0 ≡ done a → Leaves (k a) (f w).1 P)
      → Leaves (act b f >>= on_done b k) w P
  unfolding ◌>>=◌
  Leaves-then {A} {B} {P} f k w h = record { at = λ ran printed. go ran printed (f w).0 refl }
    where
      go :
          (ran : List Ran) (printed : List Text) (r : IoResult A)
          → (f w).0 ≡ r
          → (v : B)
          → (on_done b k r (record { world = (f w).1; ran = ran; printed = printed })).0
            ≡ ok (done v)
          → P v (on_done b k r (record { world = (f w).1; ran = ran; printed = printed })).1.world
      go ran printed (done a) e v q = (h a e).at ran printed v q
      go ran printed (error m) e v q = absurd (cc q)

abbrev pub first_char : Text → ℕ
first_char [] = 0
first_char (c ∷ s) = c

-- Members below one name are outside the other.
src-IsOutside_include :
    (rel : Text) → IsRelative rel → IsOutside (codes "src") (join_path (codes "include") rel)
src-IsOutside_include rel h other k e =
    let clash : as_front (codes "include") ++ rel ≡ as_front (codes "src") ++ other =
      sym (join_path-front (codes "include") rel h) ∙ e ∙ join_path-front (codes "src") other k in
    let codes_differ : ◌≡◌ {A = ℕ} 105 115 = ap first_char clash in omega (arith, codes_differ)

module _ (b : Builder) (members : Bytes → Text → Option Bytes) (laws : IsPacker b members) where
  -- The paths are resolved, and the file of the package is none of those that are packed.
  pub record Apart (la out : Text) : Type 0 where
    pub include_resolved : laws.IsResolved (join_path la (codes "include"))
    pub src_resolved : laws.IsResolved (join_path la (codes "src"))
    pub package_resolved : laws.IsResolved (join_path out bpf_archive)
    pub include_apart :
        (rel : Text)
        → IsRelative rel
        → join_path (join_path la (codes "include")) rel ≢ join_path out bpf_archive
    pub src_apart :
        (rel : Text)
        → IsRelative rel
        → join_path (join_path la (codes "src")) rel ≢ join_path out bpf_archive

  -- The package holds the headers and the sources.
  pub record Packaged (la out : Text) (before after : b.host.World) : Type 0 where
    pub bytes : Bytes
    pub written : laws.file after (join_path out bpf_archive) ≡ some bytes
    pub headers :
        (rel : Text) (x : Bytes)
        → IsRelative rel
        → laws.file before (join_path (join_path la (codes "include")) rel) ≡ some x
        → members bytes (join_path (codes "include") rel) ≡ some x
    pub sources :
        (rel : Text) (x : Bytes)
        → IsRelative rel
        → laws.file before (join_path (join_path la (codes "src")) rel) ≡ some x
        → members bytes (join_path (codes "src") rel) ≡ some x

  archive_bpf_sources-Leaves :
      (la out : Text)
      → Apart la out
      → (w : b.host.World)
      → Leaves b (archive_bpf_sources b la out) w (λ _ after. Packaged la out w after)
  unfolding archive_bpf_sources
  archive_bpf_sources-Leaves la out apart w = Leaves-then b _ _ w λ a e. Leaves-then b _ _ _ λ c q.
      Leaves-then b _ _ _ λ d p. Leaves-act b _ _ λ _ f.
        let to_a = laws.creates w _ a e in
        let to_d = laws.appends_to _ c d _ _ p ∙ laws.appends_to _ a c _ _ q ∙ to_a in
        let (bytes, written, holds) = laws.finishes _ d (rw to_d apart.package_resolved) f in
        record {
          bytes = bytes;
          written = rw to_d at written;
          headers = λ rel x h there.
              holds _
              ∙ laws.appends_below _ c d (codes "src") _ _ p (src-IsOutside_include rel h)
              ∙ laws.appends _ a c (codes "include") _ rel q apart.include_resolved h x (
                  laws.creates_only w _ _ apart.package_resolved (apart.include_apart rel h)
                  ∙ there);
          sources = λ rel x h there.
              holds _
              ∙ laws.appends _ c d (codes "src") _ rel p apart.src_resolved h x (
                  laws.appends_only _ a (codes "include") _ _ (rw to_a apart.package_resolved)
                    (λ z. apart.src_apart rel h (z ∙ to_a))
                  ∙ laws.creates_only w _ _ apart.package_resolved (apart.src_apart rel h)
                  ∙ there);
        }

  pub archive_bpf_sources-Packaged :
      (la out : Text)
      → Apart la out
      → (s : Session b.host.World) → (archive_bpf_sources b la out s).0 ≡ ok (done tt)
      → Packaged la out s.world (archive_bpf_sources b la out s).1.world
  archive_bpf_sources-Packaged la out apart s e =
      (archive_bpf_sources-Leaves la out apart s.world).at s.ran s.printed tt e

  module _ (d : Disk) (disk : IsDisk d members) where
    -- Provided that the paths are resolved ones, that `archive_bpf_sources` gives no error and that
    -- its file is none of those it packs: the file that it leaves holds bytes which, wherever
    -- `extract` then succeeds with them, let a host build script find at `source(name)` each file that
    -- stood at this name below `src` of libarena, and below `include_dir()` each one that stood below
    -- `include`, with the content of before packing.
    pub extract-archive_bpf_sources :
        (la out : Text)
        → Apart la out
        → (s : Session b.host.World) → (archive_bpf_sources b la out s).0 ≡ ok (done tt)
        → (bytes : Bytes) × (laws.file
              (archive_bpf_sources b la out s).1.world
              (join_path out bpf_archive)
            ≡ some bytes)
          × ((w : d.World) (out_dir : Text) (a : BpfAssets)
              → disk.IsResolved (join_path out_dir (codes "libarena-rs"))
              → (extract d bytes w out_dir).0 ≡ done a
              → (name : Text) (x : Bytes) → IsRelative name
              → (laws.file s.world (join_path (join_path la (codes "src")) name) ≡ some x
                  → disk.file (extract d bytes w out_dir).1 (source a name) ≡ some x)
                × (laws.file s.world (join_path (join_path la (codes "include")) name) ≡ some x
                    → disk.file (extract d bytes w out_dir).1 (join_path (include_dir a) name)
                      ≡ some x))
    unfolding source source_dir include_dir starts_with
    extract-archive_bpf_sources la out apart s e =
        let packed = archive_bpf_sources-Packaged la out apart s e in
        (
          packed.bytes,
          packed.written,
          λ w out_dir a resolved ok name content relative.
              let x = extract-Extracted d members disk packed.bytes w out_dir resolved a ok in
              (
                λ there.
                    ap (disk.file _)
                      (join_path_assoc a.root (codes "rc") name b's' refl refl relative)
                    ∙ x.inside (join_path (codes "src") name)
                        (rw (join_path-front (codes "src") name relative) refl)
                    ∙ packed.sources name content relative there,
                λ there.
                    ap (disk.file _)
                      (join_path_assoc a.root (codes "nclude") name b'i' refl refl relative)
                    ∙ x.inside (join_path (codes "include") name)
                        (rw (join_path-front (codes "include") name relative) refl)
                    ∙ packed.headers name content relative there,
              ),
        )
