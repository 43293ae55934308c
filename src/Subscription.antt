-- ===== src/Subscription.antt =====
-- internal/subscription: the institution's tier, its overrides and their history.
pub mod Data
pub mod Postgres
pub mod Service
pub mod Atomic
pub mod Effects
pub mod Log
pub mod Examples
