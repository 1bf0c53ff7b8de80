-- ===== src/Passes/BtfRename/Interned.antt =====
-- The strings that btf_rename.py appends, and what reads at their offsets.
use libarena_rs.Common.{
  ℕ, zero, suc, ◌+◌, ◌≤◌, ◌≡◌, refl, sym, ap, ◌∙◌, List, [], ◌∷◌, ◌++◌, append-nil, arith, Text,
  length, length-append, All, Option-cases, inl, inr,
}
use libarena_rs.Passes.Bytes.{Bytes, Result, ok, ◌>>=◌, drop, pack, until_nul, decode, encode}
use libarena_rs.Passes.Bytes.Laws.{
  IsPlain, encode_plain, decode_plain, until_nul_plain, until_nul-append, ok->>=, drop-append,
  drop_all, drop_past, drop-pack,
}
use libarena_rs.Passes.BtfRename.{Renaming, lookup, intern, get_str}
use libarena_rs.Passes.BtfRename.NewNames.{lookup-All}

-- A name stands in the new strings at an offset.
pub record IsInterned (str_len : ℕ) (new : Bytes) (name : Text) (off : ℕ) : Type 0 where
  pub k : ℕ
  pub place : off ≡ str_len + k
  pub inside : k ≤ length new
  pub reads : until_nul (drop k new) ≡ ok name
  pub plain : All IsPlain name

pub IsInterned-append :
    (str_len : ℕ) (new more : Bytes) (name : Text) (off : ℕ)
    → IsInterned str_len new name off
    → IsInterned str_len (new ++ more) name off
IsInterned-append str_len new more name off i = record {
  k = i.k;
  place = i.place;
  inside = let e = length-append new more in omega (arith, e, i.inside);
  reads = ap until_nul (drop-append i.k new more i.inside) ∙ until_nul-append _ more name i.reads;
  plain = i.plain;
}

abbrev pub IsEntry : ℕ → Bytes → Text × ℕ → Type 0
IsEntry str_len new (name, off) = IsInterned str_len new name off

pub IsEntry-append :
    (str_len : ℕ) (new more : Bytes) (es : List (Text × ℕ))
    → All (IsEntry str_len new) es
    → All (IsEntry str_len (new ++ more)) es
IsEntry-append str_len new more [] h = tt
IsEntry-append str_len new more ((name, off) ∷ es) (e, h) =
    (IsInterned-append str_len new more name off e, IsEntry-append str_len new more es h)

fresh :
    (str_len : ℕ) (new : Bytes) (name : Text)
    → All IsPlain name
    → IsInterned str_len (new ++ (encode name ++ 0 ∷ [])) name (str_len + length new)
fresh str_len new name plain = record {
  k = length new;
  place = refl;
  inside = let e = length-append new (encode name ++ 0 ∷ []) in omega (arith, e);
  reads =
      ap until_nul (drop_all new _)
      ∙ ap (λ s. until_nul (s ++ 0 ∷ [])) (encode_plain name plain)
      ∙ until_nul_plain name [] plain;
  plain = plain;
}

-- What interning a name does.
pub record IsGrown (str_len : ℕ) (name : Text) (s t : Renaming) (off : ℕ) : Type 0 where
  pub more : Bytes
  pub strings : t.new_strings ≡ s.new_strings ++ more
  pub entries : All (IsEntry str_len t.new_strings) t.appended
  pub found : IsInterned str_len t.new_strings name off

pub intern-IsGrown :
    (str_len : ℕ) (name : Text) (s : Renaming)
    → All IsPlain name
    → All (IsEntry str_len s.new_strings) s.appended
    → IsGrown str_len name s (intern str_len name s).1 (intern str_len name s).0
unfolding intern
intern-IsGrown str_len name s plain h = elim (Option-cases (lookup s.appended name)) [
  | inl new ↦
      rw (intern, new)
        (record {
          more = encode name ++ 0 ∷ [];
          strings = refl;
          entries = (
            fresh str_len s.new_strings name plain,
            IsEntry-append str_len s.new_strings _ s.appended h,
          );
          found = fresh str_len s.new_strings name plain;
        })
  | inr (off, known) ↦
      rw (intern, known)
        (record {
          more = [];
          strings = sym (append-nil s.new_strings);
          entries = h;
          found = lookup-All (IsEntry str_len s.new_strings) s.appended name off h known;
        })
]

until_nul-inside : (n : ℕ) (s t : Bytes) → until_nul (drop n s) ≡ ok t → n ≤ length s
unfolding until_nul
until_nul-inside zero s t h = omega arith
until_nul-inside (suc n) [] t h = absurd (cc)
until_nul-inside (suc n) (c ∷ s) t h = let e = until_nul-inside n s t h in omega (arith, e)

-- A string of the bytes, behind the header: what it is when they have grown.
pub get_str_kept :
    (str_base v off : ℕ) (buf new out : Bytes) (name : Text)
    → pack 4 (buf ++ new) 20 v ≡ ok out
    → 24 ≤ str_base
    → get_str str_base buf off ≡ ok name
    → get_str str_base out off ≡ ok name
unfolding get_str
get_str_kept str_base v off buf new out name packed behind h =
    let (s, reads, decodes) = ok->>= (until_nul (drop (str_base + off) buf)) h in
    let inside = until_nul-inside (str_base + off) buf s reads in
    let there : drop (str_base + off) out ≡ drop (str_base + off) buf ++ new =
      drop-pack 4 (buf ++ new) 20 v out (str_base + off) packed (omega (arith, behind))
      ∙ drop-append (str_base + off) buf new inside in
    let again : until_nul (drop (str_base + off) out) ≡ ok s =
      ap until_nul there ∙ until_nul-append _ new s reads in
    ap (λ (r : Result Bytes). r >>= λ t. decode t) again ∙ decodes

-- A string that was appended.
pub get_str_interned :
    (str_base str_len v off : ℕ) (buf new out : Bytes) (name : Text)
    → pack 4 (buf ++ new) 20 v ≡ ok out
    → 24 ≤ str_base
    → str_base + str_len ≡ length buf
    → IsInterned str_len new name off
    → get_str str_base out off ≡ ok name
unfolding get_str
get_str_interned str_base str_len v off buf new out name packed behind at_end i =
    let place : str_base + off ≡ length buf + i.k = let e = i.place in omega (arith, e, at_end) in
    let there : drop (str_base + off) out ≡ drop i.k new =
      drop-pack 4 (buf ++ new) 20 v out (str_base + off) packed (omega (arith, behind))
      ∙ ap (λ n. drop n (buf ++ new)) place
      ∙ drop_past i.k buf new in
    let again : until_nul (drop (str_base + off) out) ≡ ok name = ap until_nul there ∙ i.reads in
    ap (λ (r : Result Bytes). r >>= λ t. decode t) again ∙ decode_plain name i.plain
