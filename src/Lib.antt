-- ===== src/Lib.antt =====
-- libarena-rs: Rust collections in a BPF arena. A Rust program allocates with `ArenaAlloc`, which asks
-- libarena's buddy allocator (C code, linked in as bitcode) and turns the addresses of the arena into
-- pointers by the `addr_space_cast` instruction. arena-linker, the linker that rustc calls, gathers
-- the program's bitcode and libarena's, links them and drives the passes that lead to a BPF object.
--
-- Parts and files
--   Common      the shared module: texts as lists of code points, the functions of the standard
--               library on strings and paths that the program calls, lists, Boolean tests.
--   Sort        `sort` and `dedup` on vectors of strings, with what they give.
--   Cast        src/cast.rs. `addr_space_cast` gives the bytes that the macro assembles to; Encoding
--               reads them back by the instruction format, Views says what the casts keep.
--   Raw         src/raw.rs. The C functions are the record `Libarena`, posix_memalign and free the
--               record `Posix`; Laws is the contract of the allocator over its live blocks, an
--               interface between the C code and the Rust side; Hosted is about the stand-ins.
--   ArenaAlloc  src/arena_alloc.rs. Contract is the `GlobalAlloc` contract of one call, Clients that
--               of every sequence of calls, as a step relation.
--   Linker      linker/src/main.rs. Args is `parse_args`, with one function for the arm of the match
--               that an argument takes, Spelling the words of each arm, Grammar and Laws the meaning
--               of a whole command line, ResponseFiles the `@file` arguments; Session the operating system as a record `Host`, with `die`
--               and panics as values and a record of the commands that `run` runs; Tools is
--               `Tools` and `extract`; Symbols the symbol lists; TrapMode the choice of
--               the trap mode; Pipeline `main`: Stage has the commands with their arguments, Run the
--               sections of `main` one by one, Plan the order of the stages as the head of
--               main.rs describes it, Order `main` against it (Order.Inputs says where the linked
--               bitcode comes from), Returning the links that return, Failing the failed
--               commands.
--   Build       build.rs, over the linker's session. Session adds the tar crate's builder, a record
--               `Packer`, and panics; Sources is `libarena_snapshot` and `archive_bpf_sources`; Knobs
--               the tools and settings that `main` reads from the environment, one function each;
--               Script `main`: Objects the paths of the object files, Order the commands of a build
--               that returns, Returning the builds that return. Failing has the
--               failed commands, Handover leads from a build to the link.
--   Assets      the module `build` of src/lib.rs. The file system and tar's unpacking are the record
--               `Disk`; Files states what these document, Extract is about `extract`, Package about
--               the way of a file from `archive_bpf_sources` to `extract`.
--   Smoke       examples/collections_smoke.rs. Sorting is the insertion sort of `test_rs_sort`, Rounds
--               the loop of `test_rs_grow_shrink`.
--   Glue        csrc/arena_glue.bpf.c. Copying is about its copies and fills, Comparing about its
--               comparison.
--   Passes      the scripts in linker/scripts. Pattern is what the simpler ones use of Python's `re`, a
--               matcher that backtracks, with the words that it captures in Names, and Regex what
--               lower_mem.py and bpf_finalize.py use, with groups and choices; TrapToRet has the
--               loop of trap_to_ret.py, Laws its end and its result, Cleared the traps that are gone;
--               KeepSyms and ForceInline are the scripts of those names, each with the linker's reading
--               of what it prints in Laws. Bytes is what btf_rename.py uses of Python's bytes; BtfRename
--               has its loop over the types and Elf the file around them, Rounds takes a round apart,
--               NewNames and Interned are about the strings, Walk and Loop follow the types, Names has
--               what becomes of them, Appended the file that is written, Ends the end of the loop.
--               LowerMem is lower_mem.py; Finalize is bpf_finalize.py, with its metadata and
--               declarations in Declares, their numbers in Numbers, and the loop over the lines in
--               Returns, with the debug reference in Returns.Debug.
--   Tests       concrete runs.
--
-- How they meet: build.rs leaves libarena's bitcode in libarena_c.a in OUT_DIR and passes the directory
-- to the linker, which looks for that name in its library directories and unpacks it. It also leaves
-- libarena-bpf.tar, which src/lib.rs embeds and `extract` unpacks for other build scripts. ArenaAlloc
-- stands on raw.rs, whose C functions come with libarena_c.a. The copies of a program's vectors become
-- calls of the glue's `bpf_arena_memcpy`. The linker runs the passes: the keep list that keep_syms.py prints goes,
-- with libarena's symbols, into the file that tells force_inline.py what to leave outlined.
--
-- Bounds. Addresses and sizes are numbers; the conversion of a 64-bit address to a pointer wraps at
-- the width of `usize`, and `next_power_of_two` searches the 64 powers of a 64-bit `usize`, which
-- finds one for every size up to 2 ^ 63. `decimal` has as much fuel as the number's value and one
-- more. All other loops are structural; the sort's inner loop, which counts an index down, is a
-- recursion on that index.
--
-- Numbers in an object file are little-endian, of 2, 4 or 8 bytes; one that does not fit is an error.
-- The loop of btf_rename.py needs one more round of fuel than the types have bytes. A Python offset
-- over 2 ^ 63 raises another exception than the one of an offset outside, which stands for both.
--
-- The loop of trap_to_ret.py has as much fuel as the caller gives it; more fuel than there are lines is
-- enough. The patterns need no fuel: each atom goes over the text once for each way to match.
--
-- Not modelled: the machine, libarena, the system allocator, LLVM's tools, the tar crate, the kernel's
-- budget for loops and the operating system are parameters. Strings are valid Unicode, paths are texts,
-- have no component `.` at their end and are joined as on Unix; files are named by resolved paths. The
-- two handlers of src/handlers.rs only abort. The IR that the scripts read is ASCII; their command lines,
-- and the messages that they print, are left out. csrc/kfunc_compat.h holds declarations. The bytes
-- behind pointers are left out, with `realloc` and `alloc_zeroed`, the defaults of `GlobalAlloc`.
-- `next_power_of_two` stands for the function of `usize`.
pub mod Common
pub mod Sort
pub mod Cast
pub mod Raw
pub mod ArenaAlloc
pub mod Linker
pub mod Build
pub mod Assets
pub mod Smoke
pub mod Glue
pub mod Passes
mod Tests
