-- ===== src/Socket.antt =====
-- src/ncsocket.cpp: the client socket. State holds the object, Timeout its clock.
pub mod State
pub mod Timeout
pub mod Poll
pub mod Select
pub mod Handle
pub mod Ownership
pub mod Connect
pub mod Hostname
pub mod Udp
pub mod Builds
pub mod Owned
