-- ===== src/Http/Middleware/Limits.antt =====
-- The limiter that the server makes of a configuration which `Validate` accepts.
use kubectl_mcp.Prelude.{ℕ, ◌*◌}
use kubectl_mcp.Prelude.Int.{pos}
use kubectl_mcp.RateLimit.TokenBucket.{Floats, TokenBucketLimiter, new_token_bucket_limiter}

module _ (fl : Floats) (m now : ℕ) where
  -- the two limiters for a maximum of m
  abbrev bucket_of : TokenBucketLimiter
  bucket_of = new_token_bucket_limiter fl now (fl.of_int (pos (m * 2))) (pos (m * 4))
