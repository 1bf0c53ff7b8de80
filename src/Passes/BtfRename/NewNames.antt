-- ===== src/Passes/BtfRename/NewNames.antt =====
-- The names that btf_rename.py puts in are ASCII.
use libarena_rs.Common.{
  ℕ, ◌≡◌, refl, sym, ◌∙◌, Bool, true, false, ◌&&◌, Option, none, some, List, [], ◌∷◌, arith, Text,
  text_eq, text_eq_iff, ltb, ◌==◌, All, Bool-cases, inl, inr,
}
use libarena_rs.Passes.Bytes.Laws.{IsPlain}
use libarena_rs.Passes.BtfRename.{
  renames, lookup, ident_char, sanitized_name, renamed_int, clean_if, or_clean, new_name,
}

lookup_same :
    {A : Type 0} (table : List (Text × A)) (key name : Text) (a : A)
    → text_eq key name ≡ true
    → lookup ((key, a) ∷ table) name ≡ some a
unfolding lookup
lookup_same table key name a h = rw (lookup, h) refl

lookup_other :
    {A : Type 0} (table : List (Text × A)) (key name : Text) (a : A)
    → text_eq key name ≡ false
    → lookup ((key, a) ∷ table) name ≡ lookup table name
unfolding lookup
lookup_other table key name a h = rw (lookup, h) refl

pub lookup-All :
    {A : Type 0} (P : Text × A → Type 0) (table : List (Text × A)) (name : Text) (a : A)
    → All P table
    → lookup table name ≡ some a
    → P (name, a)
unfolding lookup
lookup-All P [] name a h e = absurd (cc)
lookup-All P ((key, b) ∷ table) name a (p, h) e = elim (Bool-cases (text_eq key name)) [
  | inl same ↦
      let k : key ≡ name = (text_eq_iff key name).0 same in
      let v : some b ≡ some a = sym (lookup_same table key name b same) ∙ e in
      let w : b ≡ a = cc in rw (sym k, sym w) p
  | inr other ↦ lookup-All P table name a h (sym (lookup_other table key name b other) ∙ e)
]

abbrev plain_char : ℕ → Bool
plain_char c = ltb 0 c && ltb c 128

all_plain : Text → Bool
all_plain [] = true
all_plain (c ∷ s) = plain_char c && all_plain s

all_plain-IsPlain : (s : Text) → all_plain s ≡ true → All IsPlain s
unfolding all_plain
all_plain-IsPlain [] h = tt
all_plain-IsPlain (c ∷ s) h =
    ((ground (arith, h), ground (arith, h)), all_plain-IsPlain s (ground (arith, h)))

values_plain : List (Text × Text) → Bool
values_plain [] = true
values_plain ((key, s) ∷ table) = all_plain s && values_plain table

values_plain-IsPlain :
    (table : List (Text × Text))
    → values_plain table ≡ true
    → All (λ (e : Text × Text). All IsPlain e.1) table
unfolding values_plain
values_plain-IsPlain [] h = tt
values_plain-IsPlain ((key, s) ∷ table) h =
    (all_plain-IsPlain s (ground (arith, h)), values_plain-IsPlain table (ground (arith, h)))

renames_plain : values_plain renames ≡ true
unfolding values_plain all_plain
renames_plain = refl

sanitized-IsPlain : (name : Text) → All IsPlain (sanitized_name name)
unfolding sanitized_name
sanitized-IsPlain [] = tt
sanitized-IsPlain (c ∷ s) = elim (Bool-cases (ident_char c)) [
  | inl ident ↦ rw ident ((ground (arith, ident), ground (arith, ident)), sanitized-IsPlain s)
  | inr other ↦ rw other ((omega arith, omega arith), sanitized-IsPlain s)
]

renamed_int-IsPlain : (kind : ℕ) (name s : Text) → renamed_int kind name ≡ some s → All IsPlain s
unfolding renamed_int
renamed_int-IsPlain kind name s h = elim (Bool-cases (kind == 1)) [
  | inl int ↦
      let e : renamed_int kind name ≡ lookup renames name = rw (renamed_int, int) refl in
      lookup-All (λ (e : Text × Text). All IsPlain e.1) renames name s
        (values_plain-IsPlain renames renames_plain) (sym e ∙ h)
  | inr other ↦ let e : renamed_int kind name ≡ none = rw (renamed_int, other) refl in absurd (cc)
]

or_clean-IsPlain :
    (o : Option Text) (bad : Bool) (name new : Text) (c_name : Bool)
    → ((s : Text) → o ≡ some s → All IsPlain s)
    → or_clean o (clean_if bad name) ≡ some (c_name, new)
    → All IsPlain new
or_clean-IsPlain (some s) bad name new c_name h e = let same : new ≡ s = cc in rw same (h s refl)
or_clean-IsPlain none true name new c_name h e =
    let same : new ≡ sanitized_name name = cc in rw same (sanitized-IsPlain name)
or_clean-IsPlain none false name new c_name h e = absurd (cc)

-- A new name is ASCII, with no NUL.
pub new_name-IsPlain :
    (kind : ℕ) (name new : Text) (c_name : Bool)
    → new_name kind name ≡ some (c_name, new)
    → All IsPlain new
unfolding new_name
new_name-IsPlain kind name new c_name h =
    or_clean-IsPlain (renamed_int kind name) _ name new c_name (renamed_int-IsPlain kind name) h
