-- ===== src/Webhook.antt =====
-- crates/marginalis-sqlite/src/webhooks.rs and crates/marginalis-application/src/webhooks: deliveries of
-- events to the subscriptions of users.
pub mod Store
pub mod Claims
pub mod Owned
pub mod Order
pub mod Claimed
pub mod Exclusive
pub mod Delivery
pub mod Backoff
pub mod Calls
pub mod Examples
pub mod Address
pub mod Blocks
pub mod Outside
pub mod Destination
pub mod UseCases
