-- ===== src/RateLimit/Composite.antt =====
-- `CompositeRateLimiter` as the server builds it: a token bucket and a concurrency limiter, either
-- of which may be nil.
pub mod Permits
use kubectl_mcp.Prelude.{
  ℕ, ◌-◌, Bool, true, false, Option, none, some, List, ◌≡◌, refl, arith, ltb, if◌then◌else◌,
}
use kubectl_mcp.RateLimit.Rounds.{Round, WaitResult}
use kubectl_mcp.RateLimit.TokenBucket
use kubectl_mcp.RateLimit.TokenBucket.{Floats, TokenBucketLimiter}
use kubectl_mcp.RateLimit.Concurrency
use kubectl_mcp.RateLimit.Concurrency.{ConcurrencyLimiter, AcquireResult}

pub record CompositeRateLimiter : Type 0 where
  pub rate_limiter : Option TokenBucketLimiter
  pub concurrency_limiter : Option ConcurrencyLimiter

pub data Outcome : Type 0 where
  ok : Outcome
  err_rate_limit_exceeded : Outcome
  err_concurrency_limit_exceeded : Outcome
  -- the call has not returned
  pending : Outcome

-- the second half of `Acquire`
acquire_permit :
    Bool → CompositeRateLimiter → Option ConcurrencyLimiter → CompositeRateLimiter × Outcome
acquire_permit cancelled l none = (l, ok)
acquire_permit cancelled l (some c) =
    let (c', result) = Concurrency.acquire cancelled c in
    (
      record l { concurrency_limiter = some c' },
      elim result [
        | AcquireResult.acquired ↦ ok
        | AcquireResult.context_done ↦ err_concurrency_limit_exceeded
        | AcquireResult.blocked ↦ pending
      ],
    )

-- what follows the token bucket's wait
after_wait : Bool → CompositeRateLimiter → WaitResult → CompositeRateLimiter × Outcome
unfolding acquire_permit
after_wait cancelled l WaitResult.acquired = acquire_permit cancelled l l.concurrency_limiter
after_wait cancelled l WaitResult.rate_limit_exceeded = (l, err_rate_limit_exceeded)
after_wait cancelled l WaitResult.context_done = (l, err_rate_limit_exceeded)
after_wait cancelled l WaitResult.waiting = (l, pending)

acquire_rate :
    Floats
    → List Round
    → Bool
    → CompositeRateLimiter
    → Option TokenBucketLimiter
    → CompositeRateLimiter × Outcome
unfolding after_wait
acquire_rate fl rounds cancelled l none = acquire_permit cancelled l l.concurrency_limiter
acquire_rate fl rounds cancelled l (some b) =
    let (b', result) = TokenBucket.wait fl rounds b in
    after_wait cancelled (record l { rate_limiter = some b' }) result

-- `Acquire`: the rounds of the token bucket's wait, and whether the context is done at the channel
unfoldable pub acquire :
    Floats → List Round → Bool → CompositeRateLimiter → CompositeRateLimiter × Outcome
unfolding acquire_rate
acquire fl rounds cancelled l = acquire_rate fl rounds cancelled l l.rate_limiter

release_permit : Option ConcurrencyLimiter → Option ConcurrencyLimiter
release_permit none = none
release_permit (some c) = some (Concurrency.release c)

unfoldable pub release : CompositeRateLimiter → CompositeRateLimiter
unfolding release_permit
release l = record l { concurrency_limiter = release_permit l.concurrency_limiter }

close_rate : Option TokenBucketLimiter → Option TokenBucketLimiter
close_rate none = none
close_rate (some b) = some (TokenBucket.close b)

unfoldable pub close : CompositeRateLimiter → CompositeRateLimiter
unfolding close_rate
close l = record l { rate_limiter = close_rate l.rate_limiter }
