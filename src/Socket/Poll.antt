-- ===== src/Socket/Poll.antt =====
-- src/ncsocket.cpp, lines 487 to 726: reading and writing with poll.
pub mod Os
pub mod Loop
pub mod Calls
pub mod Outcome
pub mod Rounds
pub mod Runs
pub mod Contracts
pub mod Progress
pub mod Write
pub mod Read
pub mod Stall
pub mod Still
pub mod Waiting
pub mod Stream
pub mod Steady
pub mod Quota
pub mod Kept
