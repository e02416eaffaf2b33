-- ===== src/Runner.antt =====
-- The runner (runner/).
pub mod Identity
pub mod Registration
pub mod Supervisor
pub mod AppFile
pub mod Main
pub mod Shell
pub mod Manager
pub mod Validate
pub mod Api
