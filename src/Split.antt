-- ===== src/Split.antt =====
-- The configuration of the contract decomposition: internal/domain/split_rule_config.go and
-- internal/application/split_config.go.
pub mod Policy
pub mod Override
pub mod Resolve
pub mod Spec
pub mod Laws
mod Tests
