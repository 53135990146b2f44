-- ===== src/Domain.antt =====
-- crates/marginalis-domain: the rules and the business model that do not depend on storage.
pub mod Policy
pub mod Identity
pub mod Words
pub mod Notes
