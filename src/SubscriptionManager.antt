-- ===== src/SubscriptionManager.antt =====
-- The subscriptions of a node (src/api/cpp/GravitySubscriptionManager.cpp).
pub mod Trim
pub mod State
pub mod Subscribing
pub mod Monitors
pub mod Timeouts
pub mod Incoming
pub mod Updates
pub mod Loop
pub mod Fresh
pub mod Forgetting
pub mod Leaving
pub mod Early
mod Tests
