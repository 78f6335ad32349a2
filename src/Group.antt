-- ===== src/Group.antt =====
-- The group of entries, src/nali.h: the search that a learned model starts.
pub mod Search
pub mod Bounds
pub mod Find
pub mod Chain
pub mod Defs
pub mod Single
pub mod Fill
pub mod Valid
pub mod Laws
pub mod Grown
pub mod Put
pub mod Start
pub mod Sorted
pub mod Held
