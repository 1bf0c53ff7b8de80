-- ===== src/Passes.antt =====
-- linker/scripts: the Python passes that the linker runs on LLVM's textual IR. A script is a function
-- of the texts that it reads; the IR is ASCII, where the classes of the regular expressions are those
-- written here.
pub mod Pattern
pub mod TrapToRet
pub mod KeepSyms
pub mod ForceInline
pub mod Regex
pub mod LowerMem
pub mod Finalize
pub mod Bytes
pub mod BtfRename
