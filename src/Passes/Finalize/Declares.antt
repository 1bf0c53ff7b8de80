-- ===== src/Passes/Finalize/Declares.antt =====
-- bpf_finalize.py: the metadata that is added, and the declarations of the kernel's functions.
use libarena_rs.Common.{
  ℕ, ◌+◌, Bool, not, ◌&&◌, ◌||◌, Option, none, some, List, [], ◌∷◌, ◌++◌, Text, codes, text_eq,
  contains, is_nil, keep_if, split, fields, join, starts_with, decimal, leb, ◌==◌, if◌then◌else◌,
}
use libarena_rs.Linker.Symbols.{contains_str}
use libarena_rs.Passes.Pattern.{Class, is_space, is_digit, not_newline, word_char, name_char, strip}
use libarena_rs.Passes.Regex.{
  Regex, lazy_star, group, line_start, line_end, seq, lit, many, some_of, maybe, Groups, group_of,
  sub_from,
}
use libarena_rs.Passes.BtfRename.{lookup}

-- The next number, and the nodes in the order of their numbers.
pub record Metadata : Type 0 where
  pub next_id : ℕ
  pub new_md : List Text

abbrev pub reference : ℕ → Text
reference i = codes "!" ++ decimal i

abbrev pub node : ℕ → Text → Text
node i body = reference i ++ (codes " = " ++ body)

unfoldable pub md : Text → Metadata → Text × Metadata
unfolding decimal
md body s = (
  reference s.next_id,
  record { next_id = s.next_id + 1; new_md = s.new_md ++ node s.next_id body ∷ [] },
)

-- `INT_DI`
abbrev int_di : List (Text × (Text × Text))
int_di =
    (codes "i1", (codes "char", codes "8"))
    ∷ (codes "i8", (codes "char", codes "8"))
    ∷ (codes "i16", (codes "short", codes "16"))
    ∷ (codes "i32", (codes "int", codes "32"))
    ∷ (codes "i64", (codes "long long", codes "64"))
    ∷ (codes "i128", (codes "__int128", codes "128"))
    ∷ []

basic_type : Text → Text → Text → Text
basic_type name bits encoding =
    codes "!DIBasicType(name: \""
    ++ (name ++ (codes "\", size: " ++ (bits ++ (codes ", encoding: " ++ (encoding ++ codes ")")))))

abbrev pub as_node : Option Text → Metadata → Option Text × Metadata
as_node none s = (none, s)
as_node (some body) s = let (r, s1) = md body s in (some r, s1)

-- The body of a node for a type of the IR, if there is one.
unfoldable pub di_body : Text → Option Text
unfolding lookup basic_type starts_with
di_body ty = elim (lookup int_di ty) [
  | some (name, bits) ↦ some (basic_type name bits (codes "DW_ATE_signed"))
  | none ↦
      if text_eq ty (codes "ptr") || starts_with (codes "ptr ") ty
      then some (codes "!DIDerivedType(tag: DW_TAG_pointer_type, baseType: null, size: 64)")
      else if text_eq ty (codes "float")
      then some (basic_type ty (codes "32") (codes "DW_ATE_float"))
      else if text_eq ty (codes "double")
      then some (basic_type ty (codes "64") (codes "DW_ATE_float"))
      else none
]

unfoldable pub di_type : Text → Metadata → Option Text × Metadata
unfolding di_body md
di_type ty s = as_node (di_body ty) s

-- `PARAM_ATTRS`
abbrev param_attrs : List Text
param_attrs =
    codes "noundef"
    ∷ codes "zeroext"
    ∷ codes "signext"
    ∷ codes "noalias"
    ∷ codes "nonnull"
    ∷ codes "readonly"
    ∷ codes "readnone"
    ∷ codes "nocapture"
    ∷ codes "dso_local"
    ∷ codes "extern_weak"
    ∷ codes "local_unnamed_addr"
    ∷ codes "unnamed_addr"
    ∷ []

abbrev first_or_empty : List Text → Text
first_or_empty [] = []
first_or_empty (t ∷ ts) = t

unfoldable pub strip_attrs : Text → Text
unfolding contains starts_with fields
strip_attrs s = first_or_empty (
    keep_if
      (λ t.
        not (contains param_attrs t)
        && (not (starts_with (codes "captures(") t) && not (starts_with (codes "align") t)))
      (fields is_space s))

abbrev or_null : Option Text → Text
or_null none = codes "null"
or_null (some r) = r

-- The types of the arguments that are not empty and not `...`.
unfoldable pub arg_types : List Text → Metadata → List Text × Metadata
unfolding di_type strip_attrs strip
arg_types [] s = ([], s)
arg_types (a ∷ rest) s =
    let (t, s1) = di_type (strip_attrs (strip a)) s in
    let (ts, s2) = arg_types rest s1 in
    let skipped = arg_types rest s in
    if is_nil (strip a) || text_eq (strip a) (codes "...") then skipped else (or_null t ∷ ts, s2)

abbrev pub arguments_of : Text → List Text
arguments_of args = if is_nil (strip args) then [] else split (λ c. c == b',') args

unfoldable pub ret_type : Text → Metadata → Text × Metadata
unfolding di_type
ret_type ret s =
    let (t, s1) = di_type ret s in
    if text_eq ret (codes "void") then (codes "null", s) else (or_null t, s1)

unfoldable pub subprogram_for : Text → Text → Text → Text → Metadata → Text × Metadata
unfolding ret_type arg_types md strip split join
subprogram_for file name ret args s =
    let (r, s1) = ret_type ret s in
    let (ts, s2) = arg_types (arguments_of args) s1 in
    let (sub, s3) =
      md (codes "!DISubroutineType(types: !{" ++ (join (codes ", ") (r ∷ ts) ++ codes "})")) s2 in
    md
      (codes "!DISubprogram(name: \""
        ++ (name
            ++ (codes "\", scope: "
                ++ (file
                    ++ (codes ", file: "
                        ++ (file
                            ++ (codes ", type: "
                                ++ (sub
                                    ++ codes
                                        ", flags: DIFlagPrototyped, spFlags: DISPFlagOptimized)"))))))))
      s3

-- `[a-z_]` and `[\w.]`
abbrev lower_char : Class
lower_char c = ((leb b'a' c) && (leb c b'z')) || (c == b'_')

abbrev type_char : Class
type_char c = word_char c || (c == b'.')

-- `DECL_RE`, with its groups in order.
unfoldable pub declaration_line : Regex
unfolding name_char
declaration_line = seq (
    line_start
    ∷ lit (codes "declare")
    ∷ some_of is_space
    ∷ group 1 (lazy_star (seq (some_of lower_char ∷ some_of is_space ∷ [])))
    ∷ group 2 (
        seq (
          some_of type_char
          ∷ maybe (
              seq (
                some_of is_space
                ∷ lit (codes "addrspace(")
                ∷ some_of is_digit
                ∷ lit (codes ")")
                ∷ []))
          ∷ []))
    ∷ some_of is_space
    ∷ lit (codes "@")
    ∷ group 3 (some_of name_char)
    ∷ lit (codes "(")
    ∷ group 4 (many (λ c. not (c == b')')))
    ∷ lit (codes ")")
    ∷ group 5 (many not_newline)
    ∷ line_end
    ∷ [])

-- A declaration that is none of the kernel's, or is tagged already.
unfoldable pub stays : Text → Text → Bool
unfolding starts_with text_eq contains_str
stays name line =
    starts_with (codes "llvm.") name
    || (text_eq name (codes "rust_eh_personality")
        || (contains_str line (codes "section \"") || contains_str line (codes "!dbg")))

unfoldable pub tag_declare : Text → Text → Groups → Metadata → Text × Metadata
unfolding stays subprogram_for
tag_declare file line g s =
    let (dbg, s1) = subprogram_for file (group_of 3 g) (group_of 2 g) (group_of 4 g) s in
    let tagged =
      codes "declare !dbg "
      ++ (dbg
          ++ (codes " "
              ++ (group_of 1 g
                  ++ (group_of 2 g
                      ++ (codes " @"
                          ++ (group_of 3 g
                              ++ (codes "("
                                  ++ (group_of 4 g
                                      ++ (codes ")"
                                          ++ (group_of 5 g
                                              ++ codes " section \".ksyms\"")))))))))) in
    if stays (group_of 3 g) line then (line, s) else (tagged, s1)

-- `DECL_RE.sub`
unfoldable pub tag_all : Text → Text → Metadata → Text × Metadata
unfolding sub_from declaration_line tag_declare
tag_all file text s = sub_from declaration_line (tag_declare file) none 0 text s
