-- ===== src/Tests/Passes.antt =====
-- The Python passes on small modules.
use libarena_rs.Common.{
  ℕ, ◌+◌, ◌≡◌, refl, true, false, none, some, List, [], ◌∷◌, arith, Text, codes, text_eq, split,
  join, length, ◌==◌, not, ◌&&◌, Bool, contains, fields, is_nil,
}
use libarena_rs.Passes.Pattern.{find_all, find_from, match, name_char}
use libarena_rs.Passes.TrapToRet.{
  State, initial, loop, round, round_on, rewrite_pair, unreachable_at, trap_to_ret, defined_type,
  type_after, is_trap, is_unreachable, is_int,
}
use libarena_rs.Sort.{sort, dedup}
use libarena_rs.Passes.KeepSyms.{keep_syms, section_functions, section_globals, void_functions}
use libarena_rs.Passes.ForceInline.{force_inline, inlined, strip_noinline, sub_from, defined_names}
use libarena_rs.Passes.TrapToRet.Laws.{rewrite, trap_to_ret_ends}
use libarena_rs.Passes.TrapToRet.Cleared.{has_trap, loop_clears}

abbrev cookie : Text
cookie = codes "789997"

abbrev ir_lines : List Text
ir_lines =
    codes "define noundef i32 @main(ptr %0) {"
    ∷ codes "  tail call void @llvm.trap()"
    ∷ codes "  unreachable"
    ∷ codes "}"
    ∷ codes "define internal fastcc void @grow(ptr %0) #1 {"
    ∷ codes "  call void @llvm.trap()"
    ∷ codes "  unreachable"
    ∷ []

ir_out :
    loop cookie 8 ir_lines (initial cookie)
    ≡ some (record {
      out =
          codes "define noundef i32 @main(ptr %0) {"
          ∷ codes "  ret i32 789997"
          ∷ codes "}"
          ∷ codes "define internal fastcc void @grow(ptr %0) #1 {"
          ∷ codes "  ret void"
          ∷ [];
      ret_ty = some (codes "void");
      i = 7;
      rewritten = 2;
    })
unfolding loop round round_on rewrite_pair unreachable_at type_after defined_type is_trap
    is_unreachable is_int match text_eq
ir_out = refl

-- A return type that stands right behind `define` is not read: the type of the function before it is
-- used.
plain_define_missed :
    loop cookie 5
      (codes "define noundef i32 @a() {"
        ∷ codes "define void @b() {"
        ∷ codes "  call void @llvm.trap()"
        ∷ codes "  unreachable"
        ∷ [])
      (initial cookie)
    ≡ some (record {
      out =
          codes "define noundef i32 @a() {"
          ∷ codes "define void @b() {"
          ∷ codes "  ret i32 789997"
          ∷ [];
      ret_ty = some (codes "i32");
      i = 4;
      rewritten = 1;
    })
unfolding loop round round_on rewrite_pair unreachable_at type_after defined_type is_trap
    is_unreachable is_int match text_eq
plain_define_missed = refl

abbrev ir_text : Text
ir_text = codes "define noundef i1 @f() {\n  call void @llvm.trap()\n  unreachable\n}\n"

trap_to_ret_ends_example :
    trap_to_ret cookie 6 ir_text
    ≡ some (
      join (10 ∷ []) (rewrite cookie none (split (λ c. c == 10) ir_text)).0,
      (rewrite cookie none (split (λ c. c == 10) ir_text)).1,
    )
trap_to_ret_ends_example = trap_to_ret_ends cookie ir_text 6 (unfold split in omega arith)

loop_clears_example :
    (t : State) × (loop cookie 8 ir_lines (initial cookie) ≡ some t)
    × (has_trap cookie none t.out ≡ false)
    × (length t.out + t.rewritten ≡ 7)
    × ((u : State) × (loop cookie 9 t.out (initial cookie) ≡ some u)
        × (u.out ≡ t.out)
        × (u.rewritten ≡ 0))
loop_clears_example = loop_clears cookie 8 9 ir_lines (omega arith) (omega arith)

abbrev all_lack : (ℕ → Bool) → Text → Bool
all_lack p [] = true
all_lack p (c ∷ s) = not (p c) && all_lack p s

-- Words that are written out.
abbrev all_words : (ℕ → Bool) → List Text → Bool
all_words p [] = true
all_words p (w ∷ ws) = not (is_nil w) && (all_lack p w && all_words p ws)

abbrev linked : Text
linked =
    codes
      "@LICENSE = global [4 x i8] zeroinitializer, section \"license\", align 1\n@md = internal global i8 0, section \"llvm.metadata\"\ndefine noundef i32 @entry(ptr %0) #0 section \"syscall\" {\ndefine dso_local void @helper() #1 {\ndefine internal void @buddy_split(i64 %0) #1 {\nattributes #1 = { nounwind noinline }\n"

abbrev extra : List Text
extra = codes "helper" ∷ codes "keep_me" ∷ []

kept :
    keep_syms linked (some (codes "buddy_split\n")) extra true
    ≡ codes "LICENSE" ∷ codes "buddy_split" ∷ codes "entry" ∷ codes "keep_me" ∷ []
unfolding keep_syms section_functions section_globals void_functions find_all find_from match
    name_char sort dedup contains fields split text_eq
kept = refl

stripped :
    (force_inline linked (codes "entry\n")).1
    ≡ codes "--force-attribute=helper:alwaysinline --force-attribute=buddy_split:alwaysinline\n"
unfolding force_inline inlined strip_noinline sub_from defined_names find_all find_from match
    name_char fields split contains text_eq join
stripped = refl
