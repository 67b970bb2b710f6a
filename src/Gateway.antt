-- ===== src/Gateway.antt =====
-- internal/infrastructure/gatewayclient: the client of the gateway's admin API.
pub mod Url
pub mod Args
pub mod Request
pub mod Client
pub mod Latency
pub mod Fixture
