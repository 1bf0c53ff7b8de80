-- ===== src/Passes/BtfRename.antt =====
-- linker/scripts/btf_rename.py: the names of the types in an object's BTF.
pub mod Rounds
pub mod Ends
pub mod NewNames
pub mod Interned
pub mod Walk
pub mod Loop
pub mod Names
pub mod Elf
use libarena_rs.Common.{
  ℕ, zero, suc, ◌+◌, ◌*◌, ◌/◌, ◌%◌, ◌^◌, Bool, true, false, not, ◌&&◌, ◌||◌, Option, none, some,
  List, [], ◌∷◌, ◌++◌, map, Text, codes, text_eq, ltb, ◌==◌, if◌then◌else◌, length, is_nil,
}
use libarena_rs.Passes.Pattern.{is_digit, is_letter}
use libarena_rs.Passes.Bytes.{
  Bytes, Error, value_error, key_error, assertion_error, Result, ok, raised, ◌>>=◌, drop, unpack,
  pack, until_nul, decode, encode,
}

-- `RENAME`
abbrev pub renames : List (Text × Text)
renames =
    (codes "u8", codes "unsigned char")
    ∷ (codes "u16", codes "unsigned short")
    ∷ (codes "u32", codes "unsigned int")
    ∷ (codes "u64", codes "unsigned long long")
    ∷ (codes "usize", codes "unsigned long")
    ∷ (codes "i8", codes "signed char")
    ∷ (codes "i16", codes "short")
    ∷ (codes "i32", codes "int")
    ∷ (codes "i64", codes "long long")
    ∷ (codes "isize", codes "long")
    ∷ []

-- A dictionary's value at a key.
unfoldable pub lookup : {A : Type 0} → List (Text × A) → Text → Option A
unfolding text_eq
lookup [] name = none
lookup ((key, a) ∷ rest) name =
    let behind = lookup rest name in if text_eq key name then some a else behind

-- `FIXED_EXTRA` and `PER_VLEN`: what follows the header of a type.
unfoldable pub extra : ℕ → ℕ → Result ℕ
extra kind vlen =
    if kind == 0 || ltb 19 kind
    then raised key_error
    else if (kind == 1) || ((kind == 14) || (kind == 17))
    then ok 4
    else if kind == 3
    then ok 12
    else if (kind == 4) || ((kind == 5) || ((kind == 15) || (kind == 19)))
    then ok (vlen * 12)
    else if (kind == 6) || (kind == 13)
    then ok (vlen * 8)
    else ok 0

-- `[A-Za-z0-9_]`
abbrev pub ident_char : ℕ → Bool
ident_char c = is_letter c || (is_digit c || (c == b'_'))

-- `[A-Za-z0-9_]*$`, which a line break may follow.
ident_rest : Text → Bool
ident_rest [] = true
ident_rest (c ∷ s) = (ident_char c && ident_rest s) || ((c == 10) && is_nil s)

unfoldable pub valid_ident : Text → Bool
unfolding ident_rest
valid_ident [] = false
valid_ident (c ∷ s) = (is_letter c || (c == b'_')) && ident_rest s

-- `re.sub(r"[^A-Za-z0-9_]", "_", name)`
unfoldable pub sanitized_name : Text → Text
sanitized_name name = map (λ c. if ident_char c then c else b'_') name

-- What the header of the BTF says, which stays.
pub record Header : Type 0 where
  pub types_base : ℕ
  pub types_end : ℕ
  pub str_base : ℕ
  pub str_len : ℕ

-- The variables of the loop.
pub record Renaming : Type 0 where
  pub buf : Bytes
  pub pos : ℕ
  pub new_strings : Bytes
  pub appended : List (Text × ℕ)
  pub renamed : ℕ
  pub sanitized : ℕ

unfoldable pub get_str : ℕ → Bytes → ℕ → Result Text
get_str str_base buf off = until_nul (drop (str_base + off) buf) >>= λ s. decode s

-- The offset of a name, which is appended where it is new.
unfoldable pub intern : ℕ → Text → Renaming → ℕ × Renaming
unfolding encode lookup
intern str_len name s = elim (lookup s.appended name) [
  | some off ↦ (off, s)
  | none ↦
      let off = str_len + length s.new_strings in
      (
        off,
        record s {
          appended = (name, off) ∷ s.appended;
          new_strings = s.new_strings ++ (encode name ++ 0 ∷ []);
        },
      )
]

-- The type at `pos` gets another name.
unfoldable pub give_name : ℕ → Text → Renaming → Result Renaming
unfolding intern
give_name str_len name s =
    let (off, t) = intern str_len name s in
    pack 4 t.buf t.pos off >>= λ buf. ok (record t { buf = buf })

unfoldable pub renamed_int : ℕ → Text → Option Text
unfolding lookup
renamed_int kind name = let c_name = lookup renames name in if kind == 1 then c_name else none

abbrev pub clean_if : Bool → Text → Option (Bool × Text)
clean_if true name = some (false, sanitized_name name)
clean_if false name = none

abbrev pub or_clean : Option Text → Option (Bool × Text) → Option (Bool × Text)
or_clean (some c_name) o = some (true, c_name)
or_clean none o = o

-- The name that a type gets in place of its own, and whether that is a C type's. The names of sections,
-- tags and integers stay as they are where they are not renamed.
unfoldable pub new_name : ℕ → Text → Option (Bool × Text)
unfolding renamed_int valid_ident
new_name kind name =
    or_clean (renamed_int kind name) (
      clean_if (not ((kind == 15) || ((kind == 17) || (kind == 1))) && not (valid_ident name)) name)

unfoldable pub apply_name : ℕ → Option (Bool × Text) → Renaming → Result Renaming
unfolding give_name
apply_name str_len none s = ok s
apply_name str_len (some (true, c_name)) s =
    give_name str_len c_name s >>= λ t. ok (record t { renamed = t.renamed + 1 })
apply_name str_len (some (false, clean)) s =
    give_name str_len clean s >>= λ t. ok (record t { sanitized = t.sanitized + 1 })

unfoldable pub rename_type : Header → ℕ → ℕ → Renaming → Result Renaming
unfolding get_str apply_name new_name
rename_type h kind zero s = ok s
rename_type h kind (suc off) s =
    get_str h.str_base s.buf (suc off) >>= λ name. apply_name h.str_len (new_name kind name) s

-- One round of the loop.
unfoldable pub rename_round : Header → Renaming → Result Renaming
unfolding unpack rename_type extra
rename_round h s = unpack 4 s.buf s.pos >>= λ name_off. unpack 4 s.buf (s.pos + 4) >>= λ info.
    unpack 4 s.buf (s.pos + 8) >>= λ _. rename_type h (info / 2 ^ 24 % 32) name_off s >>= λ t.
    extra (info / 2 ^ 24 % 32) (info % 2 ^ 16) >>= λ n. ok (record t { pos = t.pos + (12 + n) })

-- `while pos < end`; `none` if the fuel runs out.
unfoldable pub rename_loop : ℕ → Header → Renaming → Option (Result Renaming)
unfolding rename_round
rename_loop zero h s = none
rename_loop (suc fuel) h s = elim (ltb s.pos h.types_end) [
  | false ↦ some (ok s)
  | true ↦ elim (rename_round h s) [ raised e ↦ some (raised e) | ok t ↦ rename_loop fuel h t ]
]

-- The header of the BTF.
unfoldable pub read_header : Bytes → Result Header
unfolding unpack
read_header buf = unpack 2 buf 0 >>= λ magic. unpack 4 buf 4 >>= λ hdr_len.
    unpack 4 buf 8 >>= λ type_off. unpack 4 buf 12 >>= λ type_len. unpack 4 buf 16 >>= λ str_off.
    unpack 4 buf 20 >>= λ str_len.
    if magic == 60319
    then ok (record {
      types_base = hdr_len + type_off;
      types_end = hdr_len + type_off + type_len;
      str_base = hdr_len + str_off;
      str_len = str_len;
    })
    else raised assertion_error

abbrev pub first : Header → Bytes → Renaming
first h buf = record {
  buf = buf;
  pos = h.types_base;
  new_strings = [];
  appended = [];
  renamed = 0;
  sanitized = 0;
}

-- The BTF with its new strings, if there are any.
unfoldable pub grown : Header → Renaming → Result (Option Bytes)
unfolding pack
grown h s =
    if (s.renamed == 0) && (s.sanitized == 0)
    then ok none
    else if h.str_base + h.str_len == length s.buf
    then (pack 4 (s.buf ++ s.new_strings) 20 (h.str_len + length s.new_strings) >>= λ buf.
        ok (some buf))
    else raised assertion_error

renamed_from : Header → Option (Result Renaming) → Option (Result (Option Bytes))
unfolding grown
renamed_from h none = none
renamed_from h (some r) = some (r >>= λ s. grown h s)

-- `main`, on the section's bytes: `ok none` where nothing is to be changed; `none` if the fuel runs out.
unfoldable pub btf_rename : ℕ → Bytes → Option (Result (Option Bytes))
unfolding read_header rename_loop renamed_from
btf_rename fuel buf = elim (read_header buf) [
  | raised e ↦ some (raised e)
  | ok h ↦ renamed_from h (rename_loop fuel h (first h buf))
]
