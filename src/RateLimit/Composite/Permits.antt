-- ===== src/RateLimit/Composite/Permits.antt =====
-- What a request that passes, or fails to pass, the composite limiter leaves behind.
use kubectl_mcp.Prelude.{
  ◌+◌, ◌^◌, ◌<◌, Bool, true, false, Option, none, some, List, ◌∷◌, ◌≡◌, ◌≢◌, refl, arith,
}
use kubectl_mcp.RateLimit.Rounds.{Round, WaitResult}
use kubectl_mcp.RateLimit.TokenBucket
use kubectl_mcp.RateLimit.TokenBucket.{Floats, TokenBucketLimiter}
use kubectl_mcp.RateLimit.Concurrency
use kubectl_mcp.RateLimit.Concurrency.{
  ConcurrencyLimiter, AcquireResult, send, count_in, receive, count_out,
}
use kubectl_mcp.RateLimit.Composite.{
  CompositeRateLimiter, Outcome, ok, err_rate_limit_exceeded, err_concurrency_limit_exceeded,
  pending, acquire, release, close, acquire_permit, after_wait, acquire_rate,
}

-- the counter is in its range, also when it counts one more
abbrev pub Counts : Option ConcurrencyLimiter → Type 0
Counts none = Unit
Counts (some c) = c.current + 1 < 2 ^ 63

-- what an attempt to take a permit leaves of the limiter, by its outcome
abbrev pub Leaves : Option ConcurrencyLimiter → CompositeRateLimiter × Outcome → Type 0
Leaves before (l, ok) = (release l).concurrency_limiter ≡ before
Leaves before (l, err_rate_limit_exceeded) = l.concurrency_limiter ≡ before
Leaves before (l, err_concurrency_limit_exceeded) = l.concurrency_limiter ≡ before
Leaves before (l, pending) = l.concurrency_limiter ≡ before

acquire_permit-Leaves :
    (cancelled : Bool) (l : CompositeRateLimiter) (o : Option ConcurrencyLimiter)
    → l.concurrency_limiter ≡ o
    → Counts o
    → Leaves o (acquire_permit cancelled l o)
unfolding acquire_permit release Concurrency.acquire Concurrency.release
acquire_permit-Leaves cancelled l none e h = ground arith
acquire_permit-Leaves true l (some c) e h = refl
acquire_permit-Leaves false l (some c) e h = ground arith

after_wait-Leaves :
    (cancelled : Bool) (l : CompositeRateLimiter) (r : WaitResult)
    → Counts l.concurrency_limiter
    → Leaves l.concurrency_limiter (after_wait cancelled l r)
unfolding after_wait
after_wait-Leaves cancelled l WaitResult.acquired h =
    acquire_permit-Leaves cancelled l l.concurrency_limiter refl h
after_wait-Leaves cancelled l WaitResult.rate_limit_exceeded h = refl
after_wait-Leaves cancelled l WaitResult.context_done h = refl
after_wait-Leaves cancelled l WaitResult.waiting h = refl

acquire_rate-Leaves :
    (fl : Floats) (rounds : List Round) (cancelled : Bool) (l : CompositeRateLimiter)
    (o : Option TokenBucketLimiter)
    → Counts l.concurrency_limiter
    → Leaves l.concurrency_limiter (acquire_rate fl rounds cancelled l o)
unfolding acquire_rate
acquire_rate-Leaves fl rounds cancelled l none h =
    acquire_permit-Leaves cancelled l l.concurrency_limiter refl h
acquire_rate-Leaves fl rounds cancelled l (some b) h =
    after_wait-Leaves cancelled (record l { rate_limiter = some (TokenBucket.wait fl rounds b).0 })
      (TokenBucket.wait fl rounds b).1 h

-- A request that the composite limiter admits gives its permit back by one `Release`, and one that
-- it refuses, or keeps waiting, holds none: the concurrency limiter is as it was before.
pub release-acquire :
    (fl : Floats) (rounds : List Round) (cancelled : Bool) (l : CompositeRateLimiter)
    → Counts l.concurrency_limiter
    → Leaves l.concurrency_limiter (acquire fl rounds cancelled l)
unfolding acquire
release-acquire fl rounds cancelled l h = acquire_rate-Leaves fl rounds cancelled l l.rate_limiter h

-- Once the limiter is closed, every request that reaches the token bucket is refused with the rate
-- error, and nothing of the limiter changes.
pub acquire-close :
    (round : Round) (fl : Floats) (rounds : List Round) (cancelled : Bool)
    (l : CompositeRateLimiter)
    → l.rate_limiter ≢ none
    → acquire fl (round ∷ rounds) cancelled (close l) ≡ (close l, err_rate_limit_exceeded)
unfolding acquire close TokenBucket.wait TokenBucket.close
acquire-close round fl rounds cancelled l h = ground arith
