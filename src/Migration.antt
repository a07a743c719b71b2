-- ===== src/Migration.antt =====
-- app/facts_tree/migration_plans.py: migration plan snapshots, their coverage gate, and the
-- append-only ledger of plan states.
pub mod Coverage
pub mod State
pub mod Codec
pub mod Store
pub mod Events
pub mod Approval
pub mod Ledger
mod Examples
