-- ===== src/Server.antt =====
-- internal/server: the data plane of the proxy.
pub mod Request
pub mod Proxy
pub mod Respond
pub mod Handle
pub mod StatusLine
pub mod Boundary
pub mod Recover
