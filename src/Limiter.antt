-- ===== src/Limiter.antt =====
-- The rate limiter, packages/cache/src/rate-limiter-core.ts. `Memory` is the fixed-window limiter
-- of the fallback, `Window` the Lua script of the sliding window, `Check` the decision that
-- chooses between them. Times are in milliseconds, durations in seconds.
pub mod Defs
pub mod Memory
pub mod Window
pub mod Check
mod Tests
pub use Defs.*
