-- ===== src/Passes/LowerMem.antt =====
-- linker/scripts/lower_mem.py: the memory intrinsics and libcalls become calls of the glue's functions.
use libarena_rs.Common.{
  Bool, false, none, some, not, ◌||◌, List, [], ◌∷◌, ◌++◌, Text, codes, contains, ◌==◌,
  if◌then◌else◌,
}
use libarena_rs.Passes.Pattern.{Class, is_space, is_digit, not_newline, is_letter, name_char}
use libarena_rs.Passes.Regex.{
  Regex, char, choice, star, lazy_star, group, line_start, boundary, unless_ahead, unless_behind,
  seq, lit, many, some_of, maybe, Groups, search_from, group_of, sub, find_all,
}

-- `[A-Za-z0-9_.]`
abbrev pub symbol_char : Class
symbol_char c = is_letter c || is_digit c || (c == b'_') || (c == b'.')

abbrev not_paren : Class
not_paren c = not ((c == b'(') || (c == b')'))

-- `(?:[^,()]|\([^()]*\))*`
unfoldable pub argument : Regex
argument = star (
    choice (char (λ c. not ((c == b',') || ((c == b'(') || (c == b')')))))
      (seq (lit (codes "(") ∷ many not_paren ∷ lit (codes ")") ∷ [])))

-- `(?:tail\s+)?`
abbrev pub tail : Regex
tail = maybe (seq (lit (codes "tail") ∷ some_of is_space ∷ []))

-- `(ptrA),\s*(ptrA),\s*(i64A),\s*i1[^)]*\)` behind the name of an intrinsic, with the second type.
unfoldable pub arguments : Text → Regex
unfolding argument
arguments second = seq (
    group 1 (seq (lit (codes "ptr") ∷ argument ∷ []))
    ∷ lit (codes ",")
    ∷ many is_space
    ∷ group 2 (seq (lit second ∷ argument ∷ []))
    ∷ lit (codes ",")
    ∷ many is_space
    ∷ group 3 (seq (lit (codes "i64") ∷ argument ∷ []))
    ∷ lit (codes ",")
    ∷ many is_space
    ∷ lit (codes "i1")
    ∷ many (λ c. not (c == b')'))
    ∷ lit (codes ")")
    ∷ [])

unfoldable pub copy_call : Regex
unfolding arguments
copy_call = seq (
    tail
    ∷ lit (codes "call void @llvm.")
    ∷ choice (lit (codes "memcpy")) (lit (codes "memmove"))
    ∷ maybe (lit (codes ".inline"))
    ∷ lit (codes ".p0.p0.i64(")
    ∷ arguments (codes "ptr")
    ∷ [])

unfoldable pub set_call : Regex
unfolding arguments
set_call = seq (
    tail
    ∷ lit (codes "call void @llvm.memset")
    ∷ maybe (lit (codes ".inline"))
    ∷ lit (codes ".p0.i64(")
    ∷ arguments (codes "i8")
    ∷ [])

-- `call void @name(\1, \2, \3)`
abbrev pub glue_call : Text → Text → Groups → Text
glue_call name m g =
    codes "call void @"
    ++ (name
        ++ (codes "("
            ++ (group_of 1 g
                ++ (codes ", " ++ (group_of 2 g ++ (codes ", " ++ (group_of 3 g ++ codes ")")))))))

-- `(?<![A-Za-z0-9_.])@name\b`
abbrev pub symbol : Text → Regex
symbol name = seq (unless_behind symbol_char ∷ lit (codes "@") ∷ lit name ∷ boundary ∷ [])

-- `^(define (?!internal)[^\n]*?@)name\(`
abbrev defines : Text → Regex
defines name = seq (
    line_start
    ∷ group 1 (
        seq (
          lit (codes "define ")
          ∷ unless_ahead (lit (codes "internal"))
          ∷ lazy_star (char not_newline)
          ∷ lit (codes "@")
          ∷ []))
    ∷ lit name
    ∷ lit (codes "(")
    ∷ [])

-- `^(declare [^\n]*?@)name\(`
abbrev declares : Text → Regex
declares name = seq (
    line_start
    ∷ group 1 (seq (lit (codes "declare ") ∷ lazy_star (char not_newline) ∷ lit (codes "@") ∷ []))
    ∷ lit name
    ∷ lit (codes "(")
    ∷ [])

-- `MEM`
abbrev mem_names : List Text
mem_names = codes "memcpy" ∷ codes "memmove" ∷ codes "memset" ∷ codes "memcmp" ∷ codes "bcmp" ∷ []

-- `\1__cb_name(`
abbrev out_of_the_way : Text → Text → Groups → Text
out_of_the_way name m g = group_of 1 g ++ (codes "__cb_" ++ (name ++ codes "("))

-- The definitions and declarations of these names get out of the way.
move_away : List Text → Text → Text
unfolding sub
move_away [] text = text
move_away (n ∷ ns) text =
    move_away ns (sub (declares n) (out_of_the_way n) (sub (defines n) (out_of_the_way n) text))

-- The calls of libcalls, by their old and new names.
rename_calls : List (Text × Text) → Text → Text
unfolding sub
rename_calls [] text = text
rename_calls ((old, new) ∷ rest) text =
    rename_calls rest (sub (symbol old) (λ m g. codes "@" ++ new) text)

abbrev libcalls : List (Text × Text)
libcalls =
    (codes "memcmp", codes "bpf_arena_memcmp")
    ∷ (codes "bcmp", codes "bpf_arena_memcmp")
    ∷ (codes "memcpy", codes "bpf_arena_memcpy")
    ∷ (codes "memmove", codes "bpf_arena_memcpy")
    ∷ []

-- `^define\s[^\n]*?@([A-Za-z0-9_.$]+)\(`
unfoldable pub defined : Text → List Text
unfolding find_all name_char
defined text =
    find_all
      (seq (
        line_start
        ∷ lit (codes "define")
        ∷ char is_space
        ∷ lazy_star (char not_newline)
        ∷ lit (codes "@")
        ∷ group 1 (some_of name_char)
        ∷ lit (codes "(")
        ∷ []))
      1 text

abbrev blank : Class
blank c = (c == 32) || (c == 9)

-- `^declare\s[^\n]*\n(?:[ \t]+section[^\n]*\n)?`
unfoldable pub declaration : Regex
declaration = seq (
    line_start
    ∷ lit (codes "declare")
    ∷ char is_space
    ∷ many not_newline
    ∷ lit (codes "\n")
    ∷ maybe (seq (some_of blank ∷ lit (codes "section") ∷ many not_newline ∷ lit (codes "\n") ∷ []))
    ∷ [])

-- The first name in front of a parenthesis, if it is one of those defined.
unfoldable pub is_defined : List Text → Text → Bool
unfolding search_from name_char contains
is_defined names line =
    elim (search_from (seq (lit (codes "@") ∷ group 1 (some_of name_char) ∷ lit (codes "(") ∷ []))
      none line) [ none ↦ false | some m ↦ contains names (group_of 1 m.0) ]

-- `drop`, on every declaration.
unfoldable pub drop_defined : Text → Text
unfolding sub declaration is_defined defined
drop_defined text = sub declaration (λ m g. if is_defined (defined text) m then [] else m) text

unfoldable pub lower_mem : Text → Text
unfolding move_away sub copy_call set_call rename_calls drop_defined
lower_mem text =
    let moved = move_away mem_names text in
    let named =
      sub
        (seq
          (unless_behind symbol_char ∷ lit (codes "@memset.") ∷ some_of is_digit ∷ boundary ∷ []))
        (λ m g. codes "@memset") moved in
    let copied = sub copy_call (glue_call (codes "bpf_arena_memcpy")) named in
    let filled = sub set_call (glue_call (codes "bpf_arena_memset")) copied in
    drop_defined (rename_calls libcalls filled)
