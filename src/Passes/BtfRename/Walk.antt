-- ===== src/Passes/BtfRename/Walk.antt =====
-- One round of btf_rename.py, against the bytes as they were read.
use libarena_rs.Common.{
  ℕ, ◌+◌, ◌<◌, ◌-◌, ◌%◌, ◌^◌, ◌≤◌, ◌≡◌, refl, sym, ap, ◌∙◌, Bool, none, some, [], ◌++◌, append-nil,
  arith, Text, All,
}
use libarena_rs.Passes.Bytes.{Bytes, Result, ok, ◌>>=◌, drop, read, unpack, until_nul, decode}
use libarena_rs.Passes.Bytes.Laws.{drop_both, drop-pack, unpack-pack}
use libarena_rs.Passes.Bytes.Bounds.{unpack-before}
use libarena_rs.Passes.BtfRename.{Header, Renaming, get_str, new_name, extra, intern}
use libarena_rs.Passes.BtfRename.Rounds.{changes, IsGiven, IsTyped, unnamed, kept, given, kind_of}
use libarena_rs.Passes.BtfRename.Interned.{IsInterned, IsEntry, intern-IsGrown}
use libarena_rs.Passes.BtfRename.NewNames.{new_name-IsPlain}

-- The kind of the type at a place, the offset of its name, and the bytes behind its header.
unfoldable pub type_at : Bytes → ℕ → Result (ℕ × ℕ × ℕ)
unfolding unpack extra
type_at buf pos = unpack 4 buf pos >>= λ off. unpack 4 buf (pos + 4) >>= λ info.
    extra (kind_of info) (info % 2 ^ 16) >>= λ n. ok (kind_of info, off, n)

pub drop_further : (n k : ℕ) (a b : Bytes) → drop n a ≡ drop n b → n ≤ k → drop k a ≡ drop k b
drop_further n k a b e h =
    let split : n + (k - n) ≡ k = omega (arith, h) in
    ap (λ i. drop i a) (sym split)
    ∙ sym (drop_both (k - n) n a)
    ∙ ap (drop (k - n)) e
    ∙ drop_both (k - n) n b
    ∙ ap (λ i. drop i b) split

pub unpack_same : (w p : ℕ) (a b : Bytes) → drop p a ≡ drop p b → unpack w a p ≡ unpack w b p
unfolding unpack
unpack_same w p a b e = ap (read w) e

pub get_str_same :
    (base off : ℕ) (a b : Bytes)
    → drop base a ≡ drop base b
    → get_str base a off ≡ get_str base b off
unfolding get_str
get_str_same base off a b e =
    ap (λ s. until_nul s >>= λ t. decode t) (drop_further base (base + off) a b e (omega arith))

-- What the name of a type has become, its field and its string.
pub data IsField (h : Header) (old : Bytes) (t : Renaming) (pos kind off : ℕ) : Type 0 where
  nameless : off ≡ 0 → unpack 4 t.buf pos ≡ ok off → IsField h old t pos kind off
  stays :
      (name : Text)
      → get_str h.str_base old off ≡ ok name
      → new_name kind name ≡ none
      → unpack 4 t.buf pos ≡ ok off
      → IsField h old t pos kind off
  becomes :
      (name new : Text) (c_name : Bool) (place : ℕ)
      → get_str h.str_base old off ≡ ok name
      → new_name kind name ≡ some (c_name, new)
      → unpack 4 t.buf pos ≡ ok place
      → IsInterned h.str_len t.new_strings new place
      → 0 < changes t
      → IsField h old t pos kind off

-- The strings, the bytes from here on, and the names that were appended.
pub record IsAhead (h : Header) (old : Bytes) (s : Renaming) : Type 0 where
  pub strings : drop h.str_base s.buf ≡ drop h.str_base old
  pub ahead : drop s.pos s.buf ≡ drop s.pos old
  pub entries : All (IsEntry h.str_len s.new_strings) s.appended

-- What a round does to a type at `pos`.
pub record IsStep (h : Header) (old : Bytes) (kind off : ℕ) (s t : Renaming) : Type 0 where
  pub strings : drop h.str_base t.buf ≡ drop h.str_base old
  pub ahead : drop (s.pos + 12) t.buf ≡ drop (s.pos + 12) old
  pub entries : All (IsEntry h.str_len t.new_strings) t.appended
  pub front : (p : ℕ) → p + 4 ≤ s.pos → unpack 4 t.buf p ≡ unpack 4 s.buf p
  pub more : Bytes
  pub grows : t.new_strings ≡ s.new_strings ++ more
  pub field : IsField h old t s.pos kind off
  pub more_changes : changes s ≤ changes t
  pub same : changes t ≡ 0 → t.buf ≡ s.buf

module _ (h : Header) (old : Bytes) (s : Renaming) (inv : IsAhead h old s) where
  same-IsStep : (kind off : ℕ) → IsField h old s s.pos kind off → IsStep h old kind off s s
  same-IsStep kind off f = record {
    strings = inv.strings;
    ahead = drop_further s.pos (s.pos + 12) s.buf old inv.ahead (omega arith);
    entries = inv.entries;
    front = λ p _. refl;
    more = [];
    grows = sym (append-nil s.new_strings);
    field = f;
    more_changes = omega arith;
    same = λ _. refl;
  }

  string_of :
      (off : ℕ) {r : Result Text}
      → get_str h.str_base s.buf off ≡ r
      → get_str h.str_base old off ≡ r
  string_of off e = sym (get_str_same h.str_base off s.buf old inv.strings) ∙ e

  given-IsStep :
      (kind off : ℕ) (t : Renaming) (name new : Text) (c_name : Bool)
      → s.pos + 12 ≤ h.str_base
      → get_str h.str_base s.buf off ≡ ok name
      → new_name kind name ≡ some (c_name, new)
      → IsGiven h.str_len new s t
      → changes t ≡ changes s + 1
      → IsStep h old kind off s t
  given-IsStep kind off t name new c_name before reads renames g counts =
      let grown =
        intern-IsGrown h.str_len new s (new_name-IsPlain kind name new c_name renames)
          inv.entries in
      let (place, u) = intern h.str_len new s in
      let e : drop (s.pos + 12) t.buf ≡ drop (s.pos + 12) s.buf =
        drop-pack 4 s.buf s.pos place t.buf (s.pos + 12) g.packs (omega arith) in
      let on_base : drop h.str_base t.buf ≡ drop h.str_base s.buf =
        drop-pack 4 s.buf s.pos place t.buf h.str_base g.packs (omega (arith, before)) in
      record {
        strings = on_base ∙ inv.strings;
        ahead = e ∙ drop_further s.pos (s.pos + 12) s.buf old inv.ahead (omega arith);
        entries = rw (g.strings, g.appended) grown.entries;
        front = λ p h. unpack-before 4 s.buf s.pos place t.buf 4 p g.packs h;
        more = grown.more;
        grows = g.strings ∙ grown.strings;
        field =
            becomes name new c_name place (string_of off reads) renames
              (unpack-pack 4 s.buf s.pos place t.buf g.packs) (rw g.strings grown.found)
              (omega (arith, counts));
        more_changes = omega (arith, counts);
        same = λ none_given. absurd (omega (arith, counts, none_given));
      }

  pub typed-IsStep :
      (kind off : ℕ) (t : Renaming)
      → s.pos + 12 ≤ h.str_base
      → unpack 4 s.buf s.pos ≡ ok off
      → IsTyped h kind off s t
      → IsStep h old kind off s t
  typed-IsStep kind off t before here (unnamed e same) =
      rw same (same-IsStep kind off (nameless e here))
  typed-IsStep kind off t before here (kept name reads e same) =
      rw same (same-IsStep kind off (stays name (string_of off reads) e here))
  typed-IsStep kind off t before here (given name new c_name reads e g counts) =
      given-IsStep kind off t name new c_name before reads e g counts
