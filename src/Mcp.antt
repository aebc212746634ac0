-- ===== src/Mcp.antt =====
-- crates/mcp-core and crates/mcp-server: the protocol and the server that speaks it.
pub mod Error
pub mod JsonRpc
pub mod Protocol
pub mod Registry
pub mod Builder
pub mod Codec
pub mod Server
pub mod Elicit
mod Tests
pub mod Client
pub mod Stdio
pub mod Framing
