-- ===== src/RequestManager.antt =====
-- The requests of a node and their answers (src/api/cpp/GravityRequestManager.cpp).
pub mod State
pub mod Timeouts
pub mod Answers
pub mod Futures
pub mod Loop
pub mod Invariant
pub mod Expiry
pub mod Endings
pub mod Receiving
pub mod Rounds
pub mod Waiting
pub mod Roundtrip
mod Tests
