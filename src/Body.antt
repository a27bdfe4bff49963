-- ===== src/Body.antt =====
-- crates/icebreaker-proxy/src/body: the buffers and bodies that scan a response for secrets.
pub mod Pattern
pub mod OverlapBuffer
pub mod Scanner
pub mod Scanning
pub mod Reader
pub mod Decompressing
pub mod Config
mod Tests
