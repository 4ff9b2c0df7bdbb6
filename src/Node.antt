-- ===== src/Node.antt =====
-- GravityNode: the calls of an application, by the managers and the service directory
-- (src/api/cpp/GravityNode.cpp and .h).
pub mod State
pub mod World
pub mod Publishers
pub mod Services
pub mod Subscriptions
pub mod Relays
pub mod Address
pub mod Reregister
pub mod Delivery
pub mod Answers
pub mod Registering
mod Tests
pub mod Serving
pub mod Restart
pub mod Locking
pub mod Urls
pub mod Listening
pub mod Futures
pub mod Monitoring
mod CallTests
mod RestartTests
pub mod Owners
pub mod Urlkeeping
