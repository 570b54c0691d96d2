-- ===== src/Mcp.antt =====
-- The fixture that gives the native binary its OAuth, MCP and hosted Apps peers
-- (scripts/codex/isolated_mcp_control_fixture.py).
pub mod Fixture
pub mod Http
pub mod Metadata
pub mod Oauth
pub mod Config
pub mod Holds
pub mod Streams
pub mod Messages
pub mod Handler
pub mod Callback
pub mod Emit
pub mod Native
pub mod Operations
pub mod Control
pub mod Turns
pub mod Replay
pub mod Changes
pub mod Refinement
pub mod Revocation
pub mod Exchange
pub mod Bounds
pub mod Closing
pub mod FormPeer
mod Examples
