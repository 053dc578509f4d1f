-- ===== src/Tools.antt =====
-- The maintenance scripts: tools/audit-env.mjs and tools/scaffold-service.mjs.
pub mod AuditEnv
pub mod Scaffold
