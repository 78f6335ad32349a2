-- ===== src/KvLog.antt =====
-- The log in persistent memory, src/nali_kvlog.h and src/nali_alloc.h.
pub mod Address
pub mod Defs
pub mod Log
pub mod Valid
pub mod Ready
pub mod Append
pub mod Laws
pub mod Create
