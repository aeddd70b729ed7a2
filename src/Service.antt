-- ===== src/Service.antt =====
-- internal/service: what the portal keeps between its pages.
pub mod Accounts
pub mod TimingCache
pub mod Tests
