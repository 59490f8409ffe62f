-- ===== src/Listener.antt =====
-- src/ncsocklist.cpp: the listener.
pub mod Defs
pub mod Serve
pub mod Start
pub mod Binding
pub mod Handing
pub mod Failing
pub mod Clients
pub mod Quiet
pub mod Causes
pub mod Whole
pub mod Stopping
pub mod Datagrams
pub mod Good
pub mod Order
pub mod Reclaim
pub mod Naps
pub mod Unbound
pub mod Ending
