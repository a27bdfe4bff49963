-- ===== src/Network.antt =====
-- crates/icebreaker-proxy/src/network, and the address resolution of tunnel/connect_handler.rs.
pub mod Address
pub mod IpFilter
pub mod Connector
mod Tests
