-- ===== src/Httpserver.antt =====
-- internal/httpserver: what stands before the portal's own handlers.
pub mod Limiter
pub mod Tests
