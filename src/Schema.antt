-- ===== src/Schema.antt =====
-- The data that the components exchange (schemas/*.ts), each type with the JavaScript object that
-- is hashed and written. The `zod` parsers that validate such objects are third-party code.
pub mod Intent
pub mod Policy
pub mod Approval
pub mod Execution
pub mod Witness
