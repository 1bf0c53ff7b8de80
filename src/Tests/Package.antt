-- ===== src/Tests/Package.antt =====
-- A package of one source file, from the build script to a host build script.
use libarena_rs.Common.{
  ℕ, ◌≡◌, refl, ◌∙◌, sym, ap, ◌≢◌, ◌⊎◌, inl, inr, Bool, true, false, ◌&&◌, Option, none, some, [],
  ◌∷◌, arith, Text, codes, text_eq, text_eq_iff, if◌then◌else◌, join_path, join_path-front,
  starts_with, Bool-cases,
}
use libarena_rs.Linker.Session.{Host, Session, ◌>>=◌}
use libarena_rs.Tests.Link.{mock}
use libarena_rs.Tests.Assets
use libarena_rs.Tests.Assets.{Extraction, members, member, disk, disk-IsDisk}
use libarena_rs.Build.Session.{Builder, IoResult, done, error}
use libarena_rs.Build.Sources.{archive_bpf_sources, bpf_archive}
use libarena_rs.Assets.{BpfAssets, extract, source, include_dir}
use libarena_rs.Assets.Files.{Bytes, IsRelative, IsOutside}
use libarena_rs.Assets.Package.{first_char, IsPacker, Apart, extract-archive_bpf_sources}

-- The content of the source file la/src/a, and of the package.
abbrev Tree : Type 0
Tree = Bytes × Option Bytes

abbrev tar_path : Text
tar_path = codes "out/libarena-bpf.tar"

abbrev file_of : Tree → Text → Option Bytes
file_of (src, tar) path =
    if text_eq path tar_path
    then tar
    else if text_eq path (codes "la/src/a")
    then some src
    else none

-- The member that was appended, if it was.
abbrev Archive : Type 0
Archive = Option Bytes

abbrev contents_of : Archive → Text → Option Bytes
contents_of a m = if text_eq m member then a else none

abbrev append_of : Tree → Archive → Text → Text → IoResult Archive × Tree
append_of w a name dir =
    if text_eq name (codes "src") && text_eq dir (codes "la/src")
    then (done (some w.0), w)
    else if text_eq name (codes "include") && text_eq dir (codes "la/include")
    then (done a, w)
    else (error (codes "no such directory"), w)

abbrev finish_of : Tree → Archive → IoResult (Unit {0}) × Tree
finish_of w none = (error (codes "empty"), w)
finish_of w (some bytes) = (done tt, (w.0, some bytes))

abbrev create_of : Tree → Text → IoResult Archive × Tree
create_of w path =
    if text_eq path tar_path then (done none, (w.0, some [])) else (error (codes "read-only"), w)

abbrev tree_host : Host
tree_host = record mock {
  World = Tree;
  read = λ w p. none;
  read_to_string = λ w p. mock.read_to_string tt p;
  exists = λ w p. true;
  canonicalize = λ w p. some p;
  read_dir = λ w p. none;
  remove_dir_all = λ w p. w;
  create_dir_all = λ w p. (none, w);
  write = λ w p t. (true, w);
  output = λ w c. ((mock.output tt c).0, w);
}

abbrev builder : Builder
builder = record {
  host = tree_host;
  packer = record {
    Archive = Archive;
    create = create_of;
    append_dir_all = append_of;
    finish = finish_of;
  };
  has_var = λ n. false;
  arch = codes "x86_64";
  remove_file = λ w path. w;
}

both_true : (x y : Bool) → (x && y) ≡ true → (x ≡ true) × (y ≡ true)
both_true true true e = (refl, refl)
both_true true false e = cc
both_true false y e = cc

-- The two directories that can be appended.
abbrev Appended : Tree → Archive → Archive → Text → Text → Type 0
Appended w a c name dir =
    ((name ≡ codes "src") × (dir ≡ codes "la/src") × (c ≡ some w.0))
    ⊎ ((name ≡ codes "include") × (dir ≡ codes "la/include") × (c ≡ a))

appended :
    (w : Tree) (a c : Archive) (name dir : Text)
    → (append_of w a name dir).0 ≡ done c
    → Appended w a c name dir
appended w a c name dir e =
    elim (Bool-cases (text_eq name (codes "src") && text_eq dir (codes "la/src"))) [
      | inl src ↦
          let (n, p) = both_true _ _ src in
          inl ((text_eq_iff name _).0 n, (text_eq_iff dir _).0 p, cc (rw src at e))
      | inr other ↦
          elim (Bool-cases (text_eq name (codes "include") && text_eq dir (codes "la/include"))) [
            | inl include ↦
                let (n, p) = both_true _ _ include in
                inr
                  ((text_eq_iff name _).0 n, (text_eq_iff dir _).0 p, cc (rw (other, include) at e))
            | inr neither ↦ absurd (cc (rw (other, neither) at e))
          ]
    ]

append_world : (w : Tree) (a : Archive) (name dir : Text) → (append_of w a name dir).1 ≡ w
append_world w a name dir =
    elim (Bool-cases (text_eq name (codes "src") && text_eq dir (codes "la/src"))) [
      | inl src ↦ rw src
      | inr other ↦
          elim (Bool-cases (text_eq name (codes "include") && text_eq dir (codes "la/include"))) [
            | inl include ↦ rw (other, include)
            | inr neither ↦ rw (other, neither)
          ]
    ]

appends_of :
    (w : Tree) (a c : Archive) (name dir rel : Text)
    → (append_of w a name dir).0 ≡ done c
    → IsRelative rel
    → contents_of c (join_path name rel) ≡ file_of w (join_path dir rel)
unfolding text_eq
appends_of w a c name dir rel e h = elim (appended w a c name dir e) [
  | inl (n, p, q) ↦
      rw (n, p, q, join_path-front (codes "src") rel h, join_path-front (codes "la/src") rel h) refl
  | inr (n, p, q) ↦
      rw
        (
          n,
          p,
          q,
          join_path-front (codes "include") rel h,
          join_path-front (codes "la/include") rel h,
        )
        refl
]

appends_below_of :
    (w : Tree) (a c : Archive) (name dir m : Text)
    → (append_of w a name dir).0 ≡ done c
    → IsOutside name m
    → contents_of c m ≡ contents_of a m
appends_below_of w a c name dir m e out = elim (appended w a c name dir e) [
  | inl (n, p, q) ↦ elim (Bool-cases (text_eq m member)) [
    | inl is_member ↦ absurd (
        out (codes "a") (unfold starts_with in refl)
          ((text_eq_iff m member).0 is_member ∙ rw n (unfold join_path starts_with in refl)))
    | inr other ↦ rw other
  ]
  | inr (n, p, q) ↦ rw q
]

creates_of :
    (w : Tree) (path : Text) (a : Archive) → (create_of w path).0 ≡ done a → tar_path ≡ path
creates_of w path a e = elim (Bool-cases (text_eq path tar_path)) [
  | inl is_tar ↦ sym ((text_eq_iff path tar_path).0 is_tar)
  | inr other ↦ absurd (cc (rw other at e))
]

file_elsewhere :
    (src : Bytes) (t u : Option Bytes) (path : Text)
    → path ≢ tar_path
    → file_of (src, t) path ≡ file_of (src, u) path
file_elsewhere src t u path differ = elim (Bool-cases (text_eq path tar_path)) [
  | inl is_tar ↦ absurd (differ ((text_eq_iff path tar_path).0 is_tar))
  | inr other ↦ rw other
]

creates_only_of :
    (w : Tree) (path other : Text)
    → other ≢ path
    → file_of (create_of w path).1 other ≡ file_of w other
creates_only_of w path other differ = elim (Bool-cases (text_eq path tar_path)) [
  | inl is_tar ↦ rw is_tar (
      file_elsewhere w.0 (some []) w.1 other
        (λ e. differ (e ∙ sym ((text_eq_iff path tar_path).0 is_tar))))
  | inr fails ↦ rw fails refl
]

finishes_of :
    (w : Tree) (a : Archive)
    → (finish_of w a).0 ≡ done tt
    → (bytes : Bytes) × (file_of (finish_of w a).1 tar_path ≡ some bytes)
      × ((m : Text) → members bytes m ≡ contents_of a m)
unfolding text_eq
finishes_of w none e = absurd (cc e)
finishes_of w (some bytes) e = (bytes, refl, λ m. refl)

builder-IsPacker : IsPacker builder members
builder-IsPacker = record {
  IsResolved = λ p. first_char p ≢ 46;
  file = file_of;
  target = λ a. tar_path;
  contents = contents_of;
  creates = creates_of;
  creates_only = λ w path other resolved. creates_only_of w path other;
  appends = λ w a c name dir rel e resolved h x there. appends_of w a c name dir rel e h ∙ there;
  appends_below = appends_below_of;
  appends_to = λ w a c name dir e. refl;
  appends_only =
      λ w a name dir other resolved differ. ap (λ x. file_of x other) (append_world w a name dir);
  finishes = λ w a resolved. finishes_of w a;
}

apart : Apart builder members builder-IsPacker (codes "la") (codes "out")
unfolding text_eq join_path starts_with builder-IsPacker
apart = record {
  include_resolved = λ e. omega (arith, e);
  src_resolved = λ e. omega (arith, e);
  package_resolved = λ e. omega (arith, e);
  include_apart = λ rel h e.
      let clash : ◌≡◌ {A = ℕ} 108 111 =
        ap first_char (sym (join_path-front (codes "la/include") rel h) ∙ e) in
      omega (arith, clash);
  src_apart = λ rel h e.
      let clash : ◌≡◌ {A = ℕ} 108 111 =
        ap first_char (sym (join_path-front (codes "la/src") rel h) ∙ e) in
      omega (arith, clash);
}

abbrev start : Session Tree
start = record { world = (7 ∷ 8 ∷ [], none); ran = []; printed = [] }

abbrev packed : Session Tree
packed = (archive_bpf_sources builder (codes "la") (codes "out") start).1

extract-archive_bpf_sources_example :
    (bytes : Bytes) × (file_of packed.world (join_path (codes "out") bpf_archive) ≡ some bytes)
    × ((w : Extraction) (out_dir : Text) (a : BpfAssets)
        → starts_with (codes "out/") (join_path out_dir (codes "libarena-rs")) ≡ true
        → (extract disk bytes w out_dir).0 ≡ done a
        → (name : Text) (x : Bytes) → IsRelative name
        → (file_of start.world (join_path (join_path (codes "la") (codes "src")) name) ≡ some x
            → Assets.file_of (extract disk bytes w out_dir).1 (source a name) ≡ some x)
          × (file_of start.world (join_path (join_path (codes "la") (codes "include")) name)
                ≡ some x
              → Assets.file_of (extract disk bytes w out_dir).1 (join_path (include_dir a) name)
                ≡ some x))
unfolding builder-IsPacker disk-IsDisk
extract-archive_bpf_sources_example =
    extract-archive_bpf_sources builder members builder-IsPacker disk disk-IsDisk (codes "la")
      (codes "out") apart start
      (unfold archive_bpf_sources join_path starts_with text_eq ◌>>=◌ in refl)
