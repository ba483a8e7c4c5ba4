-- ===== src/Memory.antt =====
-- core/MemorySource.h and core/src/CachedMemorySource.cpp: reading the target's memory.
pub mod Source
pub mod Cache
pub mod Lookup
pub mod CString
mod Tests
