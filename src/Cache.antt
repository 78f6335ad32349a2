-- ===== src/Cache.antt =====
-- NumaCache of include/new_cache.h.
pub mod Defs
pub mod Laws
pub mod Enter
pub mod Take
pub mod Put
