-- ===== src/Policy.antt =====
-- The plan-approval policy engine (plane/application/policy).
pub mod Types
pub mod Validate
pub mod Predicates
pub mod Canonical
pub mod Env
pub mod Audit
pub mod Service
pub mod Engine
mod Tests
