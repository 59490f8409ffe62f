-- ===== src/Socket/Select.antt =====
-- src/ncsocket.cpp, lines 279 to 481: reading and writing with select.
pub mod Memory
pub mod Os
pub mod Loop
pub mod Calls
pub mod Outcome
pub mod Passes
pub mod Runs
pub mod Write
pub mod Read
pub mod Again
pub mod Wait
