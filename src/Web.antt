-- ===== src/Web.antt =====
-- The web page's side, web/.
pub mod Json
pub mod Request
pub mod Config
mod Tests
