-- ===== src/Mutex.antt =====
-- src/ncmutex.cpp: the mutex with its flag. Defs holds both builds, Flag what the flag says when
-- calls do not overlap, Threads what it says when they do; Section is about the WIN32 build.
pub mod Defs
pub mod Flag
pub mod Threads
pub mod Refine
pub mod Section
