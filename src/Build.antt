-- ===== src/Build.antt =====
-- build.rs: the build script, over the operating system of the linker's model and the tar crate.
pub mod Session
pub mod Sources
pub mod Knobs
pub mod Script
pub mod Handover
pub mod Failing
