-- ===== src/Mcp.antt =====
-- crates/marginalis-sqlite/src/mcp.rs: OAuth clients, authorization codes and tokens of MCP clients.
pub mod Store
pub mod Exchange
pub mod Registration
pub mod Tokens
pub mod Calls
pub mod Families
pub mod Retired
pub mod Outcomes
pub mod Issue
pub mod Codes
pub mod Spent
pub mod Replay
pub mod Access
pub mod Clients
pub mod Examples
