-- ===== src/Redirect.antt =====
-- The redirect path: packages/redirect-domain/src.
-- `Fetcher` reads a link through the cache, `Validator` decides whether it may be followed,
-- `Service` resolves a short code with both.
pub mod Link
pub mod Validator
pub mod Fetcher
pub mod Service
mod Tests
