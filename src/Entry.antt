-- ===== src/Entry.antt =====
-- The inner node of the index, PointerBEntry of src/nali_entry.h.
pub mod Defs
pub mod Route
pub mod Routed
pub mod Valid
pub mod Edges
pub mod Adjust
pub mod Locate
pub mod Writes
pub mod Laws
pub mod Grow
pub mod Put
pub mod Store
pub mod Init
