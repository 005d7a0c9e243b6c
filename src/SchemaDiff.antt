-- ===== src/SchemaDiff.antt =====
-- The comparison of schemas: apps/api/src/schema-diff.
pub mod Model
pub mod Edits
pub mod Engine
pub mod Parens
pub mod Parser
pub mod Introspector
pub mod Service
pub mod Effects
pub mod Applying
pub mod NoEdits
pub mod Indexes
pub mod Convergence
pub mod Settled
pub mod Destructive
pub mod Bundle
