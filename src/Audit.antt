-- ===== src/Audit.antt =====
-- internal/infrastructure/auditstore: where audit events are kept.
pub mod Memory
pub mod Sql
pub mod Backend
mod Tests
