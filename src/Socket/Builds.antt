-- ===== src/Socket/Builds.antt =====
-- src/ncsocket.cpp, lines 279 to 726: the poll build and the select build of writeData and readData,
-- compared on one system.
pub mod System
pub mod Bytes
pub mod Agreement
pub mod Step
pub mod Loops
pub mod Same
pub mod Differ
