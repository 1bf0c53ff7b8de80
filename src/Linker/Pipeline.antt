-- ===== src/Linker/Pipeline.antt =====
-- `main` of linker/src/main.rs: its stages in order. Each stage is one function, named for the
-- comment that heads it in the source.
pub mod Stage
pub mod Plan
pub mod Run
pub mod Order
pub mod Returning
pub mod Failing
