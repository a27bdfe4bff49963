-- ===== src/Token.antt =====
-- crates/icebreaker-common/src/token.rs, auth.rs and processor.rs: what a token says, its expiry,
-- and the hosts, methods and paths that it allows.
pub mod Config
pub mod Authority
pub mod Regex
pub mod Payload
pub mod Header
pub mod Expiration
pub mod Allowlist
mod Tests
