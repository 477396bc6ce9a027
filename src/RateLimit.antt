-- ===== src/RateLimit.antt =====
-- internal/server/ratelimiter.go: three limiters and the one that joins two of them. Each mutex
-- section is one step; the time that `time.Now()` returns is an argument, in nanoseconds.
pub mod Rounds
pub mod TokenBucket
pub mod Whole
pub mod SlidingWindow
pub mod Concurrency
pub mod Composite
mod Tests
