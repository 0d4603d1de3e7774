-- ===== src/Master.antt =====
-- The storage and read side of OrbitPlus (orbitplus/internal/application/master).
mod Tests
mod CompareTests
mod LookupTests
mod LiveTests
mod RefreshTests
pub mod Errors
pub mod Keys
pub mod Projection
pub mod Read
pub mod Exec
pub mod Freshness
pub mod Lookup
pub mod Compare
pub mod Zones
pub mod Live
pub mod Inventory
pub mod Refresh
pub mod Storage
pub mod Receive
pub mod Stations
pub mod Metadata
