-- ===== src/Processors.antt =====
-- crates/icebreaker-proxy/src/processor: how secrets get into requests.
pub mod Header
mod Tests
pub mod InjectBody
pub mod Inject
pub mod OAuth
pub mod Hmac
pub mod Sigv4
pub mod Dispatch
