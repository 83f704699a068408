-- ===== src/Api.antt =====
-- apps/api/src: what the HTTP service decides itself.
pub mod RateLimit
mod Tests
