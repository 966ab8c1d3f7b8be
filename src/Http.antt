-- ===== src/Http.antt =====
-- internal/infrastructure/httpserver: the DTOs, their decoding, the handlers and the routes.
pub mod Dto
pub mod Decode
pub mod Handler
pub mod Router
pub mod Guarded
pub mod Created
pub mod Statuses
pub mod Documented
