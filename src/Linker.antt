-- ===== src/Linker.antt =====
-- linker/src/main.rs: `arena-linker`, the program that rustc calls to link a BPF object.
pub mod Args
pub mod Session
pub mod Tools
pub mod Symbols
pub mod TrapMode
pub mod Pipeline
