-- ===== src/LogDb.antt =====
-- The database over an index and a log, include/logdb.h.
pub mod Interfaces
pub mod Defs
pub mod Valid
pub mod Laws
pub mod Search
