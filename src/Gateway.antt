-- ===== src/Gateway.antt =====
-- internal/gateway: the reverse proxy in front of CPA.
pub mod Websocket
pub mod Body
pub mod Serve
pub mod Timing
pub mod Identity
pub mod Structured
pub mod Tests
