-- ===== src/Tests.antt =====
-- Runs of the modelled code on small inputs, and the theorems at concrete data.
pub mod Crate
mod Hosted
mod Args
pub mod Link
mod Smoke
mod Build
pub mod Assets
mod Package
mod Passes
mod Glue
mod Btf
mod Finalize
