-- ===== src/Passes/Finalize.antt =====
-- linker/scripts/bpf_finalize.py: the last rewrites of the IR in front of `llc`. The metadata that is
-- added is a state; `refused` is the exit with a message.
pub mod Declares
pub mod Returns
pub mod Numbers
use libarena_rs.Common.{
  ℕ, zero, suc, ◌+◌, ◌*◌, ◌-◌, max, Bool, true, false, not, ◌&&◌, ◌||◌, Option, none, some, List,
  [], ◌∷◌, ◌++◌, Text, codes, text_eq, contains, is_nil, split, join, starts_with, decimal, ◌==◌,
  if◌then◌else◌,
}
use libarena_rs.Passes.Pattern.{
  Class, is_space, is_digit, not_space, not_newline, name_char, rstrip,
}
use libarena_rs.Passes.Regex.{
  Regex, empty, char, pair, star, lazy_star, group, line_start, line_end, boundary, unless_ahead,
  unless_behind, seq, lit, many, some_of, maybe, Groups, Found, search_from, match_here, group_of,
  sub_from, sub, sub_first, find_all, found,
}
use libarena_rs.Passes.TrapToRet.{is_int}
use libarena_rs.Passes.LowerMem.{
  symbol_char, tail, copy_call, glue_call, defined, declaration, is_defined, drop_defined,
}
use libarena_rs.Passes.Finalize.Declares.{Metadata, subprogram_for, tag_all}
use libarena_rs.Passes.Finalize.Returns.{return_lines}

-- `^\s+(?:%\S+\s*=\s*)?invoke\s`
unfoldable pub has_invoke : Text → Bool
unfolding search_from
has_invoke text = found (
    search_from
      (seq (
        line_start
        ∷ some_of is_space
        ∷ maybe (
            seq (
              lit (codes "%")
              ∷ some_of not_space
              ∷ many is_space
              ∷ lit (codes "=")
              ∷ many is_space
              ∷ []))
        ∷ lit (codes "invoke")
        ∷ char is_space
        ∷ []))
      none text)

-- `int`, of decimal digits behind a first character.
abbrev pub value : ℕ → Text → ℕ
value acc [] = acc
value acc (c ∷ s) = value (10 * acc + (c - b'0')) s

abbrev pub id_of : Text → ℕ
id_of [] = 0
id_of (c ∷ s) = value 0 s

abbrev pub largest : List ℕ → ℕ
largest [] = 0
largest (n ∷ ns) = max n (largest ns)

abbrev pub ids : List Text → List ℕ
ids [] = []
ids (x ∷ xs) = id_of x ∷ ids xs

-- `!\d+`
abbrev pub id_regex : Regex
id_regex = group 1 (seq (lit (codes "!") ∷ some_of is_digit ∷ []))

unfoldable pub first_id : Text → ℕ
unfolding find_all
first_id text = largest (ids (find_all id_regex 1 text)) + 1

unfoldable pub di_file : Text → Text
unfolding search_from
di_file text = elim (search_from (seq (id_regex ∷ lit (codes " = !DIFile(") ∷ [])) none text) [
  | none ↦ codes "!0"
  | some m ↦ group_of 1 m.0
]

-- The group of attributes that a declaration with a section has.
unfoldable pub attr_ref : Text → Text
unfolding search_from
attr_ref text =
    elim (search_from
      (seq (
        line_start
        ∷ lit (codes "declare")
        ∷ char is_space
        ∷ many not_newline
        ∷ lit (codes "#")
        ∷ group 1 (some_of is_digit)
        ∷ some_of is_space
        ∷ lit (codes "section")
        ∷ []))
      none text) [ none ↦ [] | some m ↦ codes " #" ++ group_of 1 m.0 ]

-- `^(?!define|declare)([^\n]*?)(?<![A-Za-z0-9_.])@old\b`
abbrev compare_call : Text → Regex
compare_call old = seq (
    line_start
    ∷ unless_ahead (lit (codes "define"))
    ∷ unless_ahead (lit (codes "declare"))
    ∷ group 1 (lazy_star (char not_newline))
    ∷ unless_behind symbol_char
    ∷ lit (codes "@")
    ∷ lit old
    ∷ boundary
    ∷ [])

-- Calls that the optimizer has put in.
unfoldable pub late_calls : Text → Text
unfolding sub copy_call
late_calls text =
    let copied = sub copy_call (glue_call (codes "bpf_arena_memcpy")) text in
    let compared =
      sub (compare_call (codes "memcmp")) (λ m g. group_of 1 g ++ codes "@bpf_arena_memcmp")
        copied in
    sub (compare_call (codes "bcmp")) (λ m g. group_of 1 g ++ codes "@bpf_arena_memcmp") compared

-- `call void @llvm\.trap\(\)`
abbrev pub trap_call : Regex
trap_call = lit (codes "call void @llvm.trap()")

abbrev pub throw_declared : Regex
throw_declared = seq (
    line_start
    ∷ lit (codes "declare")
    ∷ char is_space
    ∷ many not_newline
    ∷ lit (codes "@bpf_throw(")
    ∷ [])

unfoldable pub declare_throw : Text → Text → Text → Metadata → List Text × Metadata
unfolding search_from subprogram_for
declare_throw file attr text s =
    let (dbg, s1) = subprogram_for file (codes "bpf_throw") (codes "void") (codes "i64") s in
    let line =
      codes "declare !dbg "
      ++ (dbg ++ (codes " void @bpf_throw(i64)" ++ (attr ++ codes " section \".ksyms\""))) in
    if found (search_from throw_declared none text) then ([], s) else (line ∷ [], s1)

unfoldable pub thrown : Text → Text → Text
unfolding sub
thrown cookie text =
    sub (seq (tail ∷ trap_call ∷ []))
      (λ m g. codes "call void @bpf_throw(i64 " ++ (cookie ++ codes ")")) text

-- The traps become throws: the text, and the declarations that it lacks.
unfoldable pub throw_traps :
    Option Text → Text → Text → Text → Metadata → Text × List Text × Metadata
unfolding search_from thrown declare_throw
throw_traps none file attr text s = (text, [], s)
throw_traps (some cookie) file attr text s =
    let (decls, s1) = declare_throw file attr (thrown cookie text) s in
    if found (search_from trap_call none text)
    then (thrown cookie text, decls, s1)
    else (text, [], s)

-- `^(attributes #\d+ = \{)\s*\}$`
abbrev no_attributes : Regex
no_attributes = seq (
    line_start
    ∷ group 1 (seq (lit (codes "attributes #") ∷ some_of is_digit ∷ lit (codes " = {") ∷ []))
    ∷ many is_space
    ∷ lit (codes "}")
    ∷ line_end
    ∷ [])

unfoldable pub drop_noreturn : Text → Text
unfolding sub
drop_noreturn text =
    sub no_attributes (λ m g. group_of 1 g ++ codes " nounwind }")
      (sub (seq (boundary ∷ lit (codes "noreturn") ∷ boundary ∷ [])) (λ m g. []) text)

-- The subprograms of internal functions are marked as local.
mark_local : List Text → Text → Text
unfolding sub
mark_local [] text = text
mark_local (id ∷ rest) text = mark_local rest (
    sub
      (seq (
        group 1 (
          seq (
            lit id
            ∷ lit (codes " = distinct !DISubprogram(")
            ∷ lazy_star (char not_newline)
            ∷ lit (codes "spFlags: ")
            ∷ []))
        ∷ unless_ahead (lit (codes "DISPFlagLocalToUnit"))
        ∷ []))
      (λ m g. group_of 1 g ++ codes "DISPFlagLocalToUnit | ") text)

-- `^define\s+internal\s[^\n]*!dbg\s+(!\d+)`
abbrev internal_define : Regex
internal_define = seq (
    line_start
    ∷ lit (codes "define")
    ∷ some_of is_space
    ∷ lit (codes "internal")
    ∷ char is_space
    ∷ many not_newline
    ∷ lit (codes "!dbg")
    ∷ some_of is_space
    ∷ id_regex
    ∷ [])

unfoldable pub local_subprograms : Text → Text
unfolding find_all mark_local
local_subprograms text = mark_local (find_all internal_define 1 text) text

abbrev lf : Text
lf = codes "\n"

-- The declarations that were lacking, in front of the first group of attributes.
unfoldable pub put_declarations : List Text → Text → Text
unfolding sub_first join
put_declarations [] text = text
put_declarations (d ∷ ds) text =
    sub_first
      (seq (line_start ∷ group 1 (seq (lit (codes "attributes") ∷ char is_space ∷ [])) ∷ []))
      (λ m g. join lf (d ∷ ds) ++ (lf ++ (lf ++ group_of 1 g))) text

unfoldable pub put_metadata : List Text → Text → Text
unfolding rstrip join
put_metadata [] text = text
put_metadata (d ∷ ds) text = rstrip text ++ (lf ++ (join lf (d ∷ ds) ++ lf))

abbrev pub start : Text → Metadata
start text = record { next_id = first_id text; new_md = [] }

-- Everything in front of the loop over the lines: the text, and what is still to be put in.
unfoldable pub prepared : Option Text → Text → Text × List Text × Metadata
unfolding late_calls throw_traps drop_defined tag_all drop_noreturn local_subprograms first_id
    di_file attr_ref
prepared cookie text =
    let file = di_file text in
    let (throwing, decls, s) =
      throw_traps cookie file (attr_ref text) (late_calls text) (start text) in
    let (tagged, s1) = tag_all file (drop_defined throwing) s in
    (local_subprograms (drop_noreturn tagged), decls, s1)

-- The script, with the cookie in decimal; `none` is the exit for an `invoke`.
unfoldable pub bpf_finalize : Option Text → Text → Option Text
unfolding has_invoke prepared return_lines split join put_declarations put_metadata
bpf_finalize cookie text =
    let (ready, decls, s) = prepared cookie text in
    let out = join lf (return_lines (codes "void") (split (λ c. c == 10) ready)) in
    if has_invoke text then none else some (put_metadata s.new_md (put_declarations decls out))
