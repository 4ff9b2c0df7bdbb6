-- ===== src/PublishManager.antt =====
-- The publishers of a node and the values that late subscribers get
-- (src/api/cpp/GravityPublishManager.cpp).
pub mod State
pub mod Commands
pub mod Publishing
pub mod Loop
pub mod Agreement
pub mod Invariant
pub mod Steps
pub mod Slots
pub mod Refinement
pub mod Published
pub mod Cache
pub mod Resend
mod Tests
