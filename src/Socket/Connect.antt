-- ===== src/Socket/Connect.antt =====
-- src/ncsocket.cpp, lines 171 to 276: connecting.
pub mod Defs
pub mod Attempts
pub mod Sleeping
pub mod Paths
pub mod Outcome
pub mod Ends
pub mod Dotted
pub mod Opened
pub mod Reconnect
