-- ===== src/Thread.antt =====
-- src/ncthread.cpp: the thread object over the native threads.
pub mod Defs
pub mod Lifecycle
pub mod Win32
