-- ===== src/Directory.antt =====
-- The service directory (src/components/cpp/ServiceDirectory/ServiceDirectory.cpp).
pub mod Messages
pub mod State
pub mod Locations
pub mod Publishers
pub mod Register
pub mod Unregister
pub mod Requests
pub mod View
pub mod SilentWrites
pub mod Distinct
pub mod Purge
pub mod Purged
pub mod Registered
pub mod Unregistered
pub mod Keeping
pub mod Described
pub mod OtherUrls
pub mod Settled
pub mod SettledRemoval
pub mod ReadOnly
pub mod Invariant
pub mod Lookups
pub mod Services
pub mod RoundTrips
pub mod Staleness
pub mod Takeover
mod Tests
