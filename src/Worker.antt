-- ===== src/Worker.antt =====
-- orbitplusworker: the service that takes refresh messages from RabbitMQ.
pub mod Errors
pub mod Message
pub mod RateLimit
pub mod Config
pub mod Settings
pub mod Endpoints
pub mod Deps
pub mod Exec
pub mod Await
pub mod Combine
pub mod SearchBusMap
pub mod Attempt
pub mod Handle
pub mod Runtime
pub mod Trace
mod Tests
mod QuotaTests
mod CombineTests
mod ConfigTests
