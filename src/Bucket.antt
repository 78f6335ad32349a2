-- ===== src/Bucket.antt =====
-- The leaf node of the index, UnSortBuncket of src/nali_entry.h.
pub mod Defs
pub mod Contents
pub mod Valid
pub mod Laws
pub mod Remove
pub mod Sort
pub mod Expand
pub mod Copied
pub mod Emptied
pub mod Split
pub mod Scan
pub mod Minimum
