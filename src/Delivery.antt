-- ===== src/Delivery.antt =====
-- The delivery workflow of internal/infrastructure/mysql: the tables, and the handlers that move a
-- service item along.
pub mod Payload
pub mod Schema
pub mod Store
pub mod Report
pub mod Evidence
pub mod Plan
pub mod Gates
pub mod Rollback
pub mod EquipmentLocks
pub mod Equipment
pub mod Change
pub mod Assignment
pub mod Field
pub mod Reporting
pub mod Items
pub mod Json
pub mod Serial
pub mod Projects
pub mod Moves
pub mod Apply
pub mod Tests
