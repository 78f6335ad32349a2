-- ===== src/Tree.antt =====
-- The tree of groups, Nali of src/nali.h.
pub mod Defs
pub mod Expand
pub mod Find
pub mod Valid
pub mod Writes
pub mod Laws
pub mod Put
pub mod Start
pub mod Held
pub mod Sampled
pub mod Spread
pub mod Picked
pub mod Packed
pub mod Refilled
pub mod Grown
pub mod Stores
