-- ===== src/Authz.antt =====
-- internal/authz: who may do what. `Vocabulary`, `Keys` and `Policy` hold the data, `Engine` the
-- checks, `Defaults` the compiled-in table.
pub mod Vocabulary
pub mod Keys
pub mod Policy
pub mod Staff
pub mod Engine
pub mod Defaults
pub mod Audit
mod Examples
pub mod Laziness
pub mod Grants
pub mod Reach
