-- ===== src/Passes/BtfRename/Names.antt =====
-- What becomes of the names of an object's types in btf_rename.py.
use libarena_rs.Common.{
  ℕ, ◌+◌, ◌≤◌, ◌≡◌, ◌⊎◌, refl, sym, ◌∙◌, Option, none, some, List, [], ◌∷◌, ◌++◌, arith, Text, All,
  length, ◌==◌, ◌&&◌, Bool-cases, inl, inr, ==_iff,
}
use libarena_rs.Passes.Bytes.{Bytes, assertion_error, Result, ok, raised, ◌>>=◌, drop, unpack, pack}
use libarena_rs.Passes.Bytes.Laws.{drop-pack, unpack-append, ok->>=, ok_inj}
use libarena_rs.Passes.BtfRename.{
  Header, Renaming, get_str, new_name, rename_loop, read_header, first, grown, renamed_from,
  btf_rename,
}
use libarena_rs.Passes.BtfRename.Interned.{get_str_kept, get_str_interned}
use libarena_rs.Passes.BtfRename.Rounds.{changes}
use libarena_rs.Passes.BtfRename.Walk.{
  unpack_same, get_str_same, IsField, nameless, stays, becomes, IsAhead,
}
use libarena_rs.Passes.BtfRename.Loop.{types_of, IsInFront, IsDone, loop-IsLooped}

-- The name that a type has when the script is done.
unfoldable pub name_after : ℕ → Text → Text
unfolding new_name
name_after kind name = elim (new_name kind name) [ none ↦ name | some (_, new) ↦ new ]

-- A type of the old bytes, in the new ones.
pub data IsNamed (h : Header) (old out : Bytes) : ℕ × ℕ × ℕ → Type 0 where
  anonymous : {pos kind : ℕ} → unpack 4 out pos ≡ ok 0 → IsNamed h old out (pos, kind, 0)
  named :
      {pos kind off : ℕ} (name : Text) (place : ℕ)
      → get_str h.str_base old off ≡ ok name
      → unpack 4 out pos ≡ ok place
      → get_str h.str_base out place ≡ ok (name_after kind name)
      → IsNamed h old out (pos, kind, off)

record IsGrownTo (h : Header) (s : Renaming) (out : Bytes) : Type 0 where
  pub at_end : h.str_base + h.str_len ≡ length s.buf
  pub packs : pack 4 (s.buf ++ s.new_strings) 20 (h.str_len + length s.new_strings) ≡ ok out

-- What `grown` says when it raises nothing.
grown-IsGrownTo :
    (h : Header) (s : Renaming) (r : Option Bytes)
    → grown h s ≡ ok r
    → ((r ≡ none) × (changes s ≡ 0)) ⊎ ((out : Bytes) × (r ≡ some out) × IsGrownTo h s out)
unfolding grown
grown-IsGrownTo h s r e = elim (Bool-cases ((s.renamed == 0) && (s.sanitized == 0))) [
  | inl nothing ↦
      let same : grown h s ≡ ok none = rw (grown, nothing) refl in
      inl (ok_inj (sym same ∙ e), ground (arith, nothing))
  | inr some_names ↦ elim (Bool-cases (h.str_base + h.str_len == length s.buf)) [
    | inl at_end ↦
        let same : grown h s ≡ (
            pack 4 (s.buf ++ s.new_strings) 20 (h.str_len + length s.new_strings) >>= λ buf.
            ok (some buf)) =
          rw (grown, some_names, at_end) refl in
        let (buf, packs, f) = ok->>= _ (sym same ∙ e) in
        inr (buf, ok_inj f, record { at_end = (==_iff _ _).0 at_end; packs = packs })
    | inr elsewhere ↦
        let same : grown h s ≡ raised assertion_error = rw (grown, some_names, elsewhere) refl in
        let bad : raised assertion_error ≡ ok r = sym same ∙ e in absurd (cc)
  ]
]

module _ (h : Header) (old : Bytes) (s : Renaming) (out : Bytes) (g : IsGrownTo h s out) where
  unpack_grown :
      (pos v : ℕ)
      → 24 ≤ pos
      → pos + 12 ≤ h.str_base
      → unpack 4 s.buf pos ≡ ok v
      → unpack 4 out pos ≡ ok v
  unpack_grown pos v behind before e =
      let size = g.at_end in
      unpack_same 4 pos out (s.buf ++ s.new_strings)
        (drop-pack 4 (s.buf ++ s.new_strings) 20 _ out pos g.packs (omega (arith, behind)))
      ∙ unpack-append 4 pos v s.buf s.new_strings (omega (arith, size, before)) e

  IsField-IsNamed :
      (pos kind off : ℕ)
      → drop h.str_base s.buf ≡ drop h.str_base old
      → IsInFront h (pos, kind, off)
      → IsField h old s pos kind off
      → IsNamed h old out (pos, kind, off)
  unfolding name_after
  IsField-IsNamed pos kind off strings (behind, before) (nameless zero_off e) =
      rw zero_off (anonymous (unpack_grown pos 0 behind before (rw (sym zero_off) e)))
  IsField-IsNamed pos kind off strings (behind, before) (stays name a b e) =
      let kept = get_str_same h.str_base off s.buf old strings ∙ a in
      named name off a (unpack_grown pos off behind before e) (
        rw (name_after, b)
          (get_str_kept h.str_base _ off s.buf s.new_strings out name g.packs
            (omega (arith, behind, before)) kept))
  IsField-IsNamed pos kind off strings (behind, before) (becomes name new c_name place a b e i _) =
      named name place a (unpack_grown pos place behind before e) (
        rw (name_after, b)
          (get_str_interned h.str_base h.str_len _ place s.buf s.new_strings out new g.packs
            (omega (arith, behind, before)) g.at_end i))

  all-IsNamed :
      (types : List (ℕ × ℕ × ℕ))
      → drop h.str_base s.buf ≡ drop h.str_base old
      → All (IsInFront h) types
      → All (IsDone h old s) types
      → All (IsNamed h old out) types
  all-IsNamed [] strings before done = tt
  all-IsNamed ((pos, kind, off) ∷ types) strings (here, before) (field, done) =
      (IsField-IsNamed pos kind off strings here field, all-IsNamed types strings before done)

-- Where no name was given, the bytes are the old ones.
unchanged-IsNamed :
    (h : Header) (old : Bytes) (s : Renaming) (types : List (ℕ × ℕ × ℕ))
    → changes s ≡ 0
    → s.buf ≡ old
    → All (IsDone h old s) types
    → All (IsNamed h old old) types
unfolding name_after
unchanged-IsNamed h old s [] none_given same done = tt
unchanged-IsNamed h old s ((pos, kind, off) ∷ types) none_given same (field, done) =
    (one field, unchanged-IsNamed h old s types none_given same done)
  where
    one : IsField h old s pos kind off → IsNamed h old old (pos, kind, off)
    one (nameless zero_off e) = rw zero_off (anonymous (rw (sym same, sym zero_off) e))
    one (stays name a b e) = named name off a (rw (sym same) e) (rw (name_after, b) a)
    one (becomes name new c_name place a b e i some_given) =
        absurd (omega (arith, none_given, some_given))

renamed-ok :
    (h : Header) (o : Option (Result Renaming)) (r : Option Bytes)
    → renamed_from h o ≡ some (ok r)
    → (s : Renaming) × (o ≡ some (ok s)) × (grown h s ≡ ok r)
unfolding renamed_from
renamed-ok h none r e = absurd (cc)
renamed-ok h (some (raised x)) r e = absurd (cc)
renamed-ok h (some (ok s)) r e = (s, refl, cc)

-- The bytes of the section when the script is done.
abbrev pub bytes_after : Bytes → Option Bytes → Bytes
bytes_after old none = old
bytes_after old (some out) = out

-- Where the headers of the types lie between that of the BTF and the strings: when btf_rename.py
-- raises nothing, each type of the old bytes has then, in the new ones or in the old ones if it leaves
-- them, the name that the script has for its kind and its old name, read at the offset that its header
-- holds there, and a type without a name still has none.
pub btf_rename_lem :
    (fuel : ℕ) (old : Bytes) (h : Header) (r : Option Bytes)
    → read_header old ≡ ok h
    → btf_rename fuel old ≡ some (ok r)
    → All (IsInFront h) (types_of fuel h old h.types_base)
    → All (IsNamed h old (bytes_after old r)) (types_of fuel h old h.types_base)
unfolding btf_rename
btf_rename_lem fuel old h r reads e before =
    let same : btf_rename fuel old ≡ renamed_from h (rename_loop fuel h (first h old)) =
      rw (btf_rename, reads) refl in
    let (s, loops, grows) = renamed-ok h _ r (sym same ∙ e) in
    let start : IsAhead h old (first h old) = record {
      strings = refl;
      ahead = refl;
      entries = tt;
    } in
    let looped = loop-IsLooped h old fuel (first h old) s loops start before in
    elim (grown-IsGrownTo h s r grows) [
      | inl (left_alone, none_given) ↦
          rw left_alone
            (unchanged-IsNamed h old s _ none_given (looped.same none_given) looped.fields)
      | inr (out, written, g) ↦
          rw written (all-IsNamed h old s out g _ looped.strings before looped.fields)
    ]
