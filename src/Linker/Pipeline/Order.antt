-- ===== src/Linker/Pipeline/Order.antt =====
-- The stages that a link which returns has run, in order.
pub mod Inputs
pub mod Gather
mod Middle
mod Whole
pub use Whole.*
