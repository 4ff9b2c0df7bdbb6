-- ===== src/Synchronizer.antt =====
-- The thread that keeps a service directory in step with those of other domains
-- (src/components/cpp/ServiceDirectory/ServiceDirectorySynchronizer.cpp).
pub mod State
pub mod Commands
pub mod Remotes
pub mod Loop
pub mod Updates
pub mod Told
pub mod Made
pub mod Queue
pub mod History
pub mod Sending
pub mod Removal
mod Tests
