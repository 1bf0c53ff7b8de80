-- ===== src/Tests/Finalize.antt =====
-- linker/scripts/bpf_finalize.py and lower_mem.py on small modules.
use libarena_rs.Passes.Finalize.Returns.{debug_part}
use libarena_rs.Common.{
  ◌<◌, false, All, ◌≡◌, refl, some, List, [], ◌∷◌, Text, codes, split, fields, join, starts_with,
  text_eq, contains, decimal,
}
use libarena_rs.Linker.Symbols.{contains_str}
use libarena_rs.Passes.Pattern.{rstrip, strip, name_char}
use libarena_rs.Passes.Regex.{match, match_here, search_from, sub_from, sub, sub_first, find_all}
use libarena_rs.Passes.TrapToRet.{is_int}
use libarena_rs.Passes.BtfRename.{lookup}
use libarena_rs.Passes.LowerMem.{
  argument, arguments, copy_call, set_call, defined, declaration, is_defined, drop_defined,
  lower_mem,
}
use libarena_rs.Passes.Finalize.Declares.{
  md, di_type, strip_attrs, arg_types, subprogram_for, declaration_line, stays, tag_declare,
  tag_all,
}
use libarena_rs.Passes.Finalize.Returns.{
  define_line, unreachable_line, defined_return, debug_part, zero_of, return_line, changed_line,
  return_lines,
}
use libarena_rs.Passes.Finalize.Numbers.{finished, numbered, bpf_finalize_lem}
use libarena_rs.Passes.Finalize.{
  has_invoke, first_id, di_file, attr_ref, late_calls, throw_traps, drop_noreturn,
  local_subprograms, id_of, id_regex, put_declarations, put_metadata, prepared, bpf_finalize,
}

abbrev module_text : Text
module_text =
    codes
      "declare void @bpf_k(i32 noundef, ptr)\ndeclare i32 @f()\ndefine internal i32 @f() !dbg !2 {\n  call void @llvm.trap()\n  unreachable, !dbg !3\n}\nattributes #0 = { noreturn }\n!1 = !DIFile(x)\n!2 = distinct !DISubprogram(a, spFlags: X)\n"

abbrev finalized : Text
finalized =
    codes
      "declare !dbg !10 void @bpf_k(i32 noundef, ptr) section \".ksyms\"\ndefine internal i32 @f() !dbg !2 {\n  call void @bpf_throw(i64 7)\n  ret i32 0, !dbg !3\n}\ndeclare !dbg !6 void @bpf_throw(i64) section \".ksyms\"\n\nattributes #0 = { nounwind }\n!1 = !DIFile(x)\n!2 = distinct !DISubprogram(a, spFlags: DISPFlagLocalToUnit | X)\n!4 = !DIBasicType(name: \"long long\", size: 64, encoding: DW_ATE_signed)\n!5 = !DISubroutineType(types: !{null, !4})\n!6 = !DISubprogram(name: \"bpf_throw\", scope: !1, file: !1, type: !5, flags: DIFlagPrototyped, spFlags: DISPFlagOptimized)\n!7 = !DIBasicType(name: \"int\", size: 32, encoding: DW_ATE_signed)\n!8 = !DIDerivedType(tag: DW_TAG_pointer_type, baseType: null, size: 64)\n!9 = !DISubroutineType(types: !{null, !7, !8})\n!10 = !DISubprogram(name: \"bpf_k\", scope: !1, file: !1, type: !9, flags: DIFlagPrototyped, spFlags: DISPFlagOptimized)\n"

finalizes : bpf_finalize (some (codes "7")) module_text ≡ some finalized
unfolding bpf_finalize has_invoke prepared first_id di_file attr_ref late_calls throw_traps
    drop_noreturn local_subprograms put_declarations put_metadata md di_type strip_attrs arg_types
    subprogram_for declaration_line stays tag_declare tag_all define_line unreachable_line
    defined_return debug_part zero_of return_line changed_line return_lines argument arguments
    copy_call defined declaration is_defined drop_defined match match_here search_from sub_from sub
    sub_first find_all is_int lookup rstrip strip name_char split fields join starts_with text_eq
    contains decimal contains_str
finalizes = refl

bpf_finalize_lem_example :
    (has_invoke module_text ≡ false)
    × All (λ x. id_of x < first_id module_text) (find_all id_regex 1 module_text)
    × (finalized
        ≡ put_metadata
            (prepared (some (codes "7")) module_text).2.new_md
            (finished (some (codes "7")) module_text))
    × ((bodies : List Text) × ((prepared (some (codes "7")) module_text).2.new_md
          ≡ numbered (first_id module_text) bodies))
bpf_finalize_lem_example = bpf_finalize_lem (some (codes "7")) module_text finalized finalizes

abbrev ir_lines : List Text
ir_lines =
    codes "define noundef i64 @f() {"
    ∷ codes "  unreachable, !dbg !3"
    ∷ codes "define internal void @g() {"
    ∷ codes "  ; unreachable"
    ∷ codes "\tunreachable"
    ∷ []

returns : return_lines (codes "void") ir_lines ≡ (
    codes "define noundef i64 @f() {"
    ∷ codes "  ret i64 0, !dbg !3"
    ∷ codes "define internal void @g() {"
    ∷ codes "  ; unreachable"
    ∷ codes "\tret void"
    ∷ [])
unfolding define_line unreachable_line defined_return debug_part zero_of return_line changed_line
    return_lines match match_here search_from is_int starts_with text_eq name_char
returns = refl

-- Without a group of attributes the declaration of `bpf_throw` is lost.
undeclared :
    put_declarations (codes "declare void @bpf_throw(i64)" ∷ []) (codes "define void @f() {\n")
    ≡ codes "define void @f() {\n"
unfolding put_declarations sub_first sub_from match match_here join
undeclared = refl

lowered :
    lower_mem (
      codes
        "declare void @memset.3(ptr)\ndefine void @memcpy(ptr %0) {\n  tail call void @llvm.memcpy.p0.p0.i64(ptr align 8 %a, ptr captures(none, x) %b, i64 4, i1 false)\n  call i32 @memcmp(ptr %a)\n}\n")
    ≡ codes
        "declare void @memset(ptr)\ndefine void @__cb_memcpy(ptr %0) {\n  call void @bpf_arena_memcpy(ptr align 8 %a, ptr captures(none, x) %b, i64 4)\n  call i32 @bpf_arena_memcmp(ptr %a)\n}\n"
unfolding lower_mem argument arguments copy_call set_call defined declaration is_defined
    drop_defined match match_here search_from sub_from sub find_all name_char contains text_eq
lowered = refl
