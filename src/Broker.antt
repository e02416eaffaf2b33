-- ===== src/Broker.antt =====
-- The broker (broker/).
pub mod Stacklist
pub mod Model
pub mod Store
pub mod Service
pub mod HealthCheck
pub mod Http
pub mod Handler
pub mod Config
pub mod Main
