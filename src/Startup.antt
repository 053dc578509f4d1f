-- ===== src/Startup.antt =====
-- How the processes start and stop: the gateway's apps/gateway/src/main.ts, and
-- libs/common/src/bootstrap.
pub mod ApiDocs
pub mod Tasks
pub mod Telemetry
pub mod Reports
pub mod Services
