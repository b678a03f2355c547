-- ===== src/Penetration.antt =====
-- internal/infrastructure/mysql/penetration.go: the penetration work package of a service item.
pub mod Package
pub mod Commands
pub mod Laws
pub mod Replay
mod Tests
