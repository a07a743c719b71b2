-- ===== src/Facts.antt =====
-- app/memory/company_facts: candidates, their consolidation into facts and todos, and the decisions
-- on todos.
pub mod Candidate
pub mod Suggestion
pub mod Tables
pub mod Todos
pub mod Item
pub mod Consolidation
pub mod Decision
pub mod Written
pub mod Current
pub mod Lookup
pub mod Keys
pub mod Settled
pub mod Again
pub mod Closing
pub mod Closed
pub mod Decided
pub mod Existing
pub mod Unresolved
pub mod Calls
pub mod Stays
mod Examples
