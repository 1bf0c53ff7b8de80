-- ===== src/Linker/Pipeline/Returning.antt =====
-- A link returns where the operating system serves every request and there is bitcode on both sides.
pub mod Gather
mod Sections
mod Whole
pub use Whole.*
