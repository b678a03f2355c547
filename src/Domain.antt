-- ===== src/Domain.antt =====
-- internal/domain: what the package computes from statuses, without a database.
pub mod Phase
pub mod Status
