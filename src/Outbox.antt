-- ===== src/Outbox.antt =====
-- The rows that wait for another system: the audit outbox, the notification outbox and the derived effects.
pub mod Audit
pub mod Notice
pub mod Effects
