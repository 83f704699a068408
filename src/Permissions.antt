-- ===== src/Permissions.antt =====
-- packages/permissions/src: the policy language and its evaluation.
pub mod Identifier
pub mod Conditions
pub mod Evaluator
pub mod Document
pub mod Scopes
mod Tests
