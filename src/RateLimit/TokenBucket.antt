-- ===== src/RateLimit/TokenBucket.antt =====
-- `TokenBucketLimiter`, which counts tokens in `float64`. The arithmetic of Go's floats is the record
-- `Floats`. The clock is monotonic, and a Duration is a number of nanoseconds.
pub mod Burst
use kubectl_mcp.RateLimit.Rounds.{Round, WaitResult}
use kubectl_mcp.Prelude.{ℕ, Bool, true, false, List, [], ◌∷◌, if◌then◌else◌}
use kubectl_mcp.Prelude.Int.{ℤ, pos, ◌-ℤ◌}
use kubectl_mcp.Value.{Float64}

-- the operations of `float64` that the limiter uses, with their rounding
pub record Floats : Type 0 where
  pub add : Float64 → Float64 → Float64
  pub sub : Float64 → Float64 → Float64
  pub mul : Float64 → Float64 → Float64
  pub lt : Float64 → Float64 → Bool
  pub le : Float64 → Float64 → Bool
  -- `float64(n)`
  pub of_int : ℤ → Float64
  -- `Duration.Seconds()`
  pub seconds : ℤ → Float64

pub record TokenBucketLimiter : Type 0 where
  pub rate : Float64
  pub capacity : Float64
  pub tokens : Float64
  pub last_update : ℕ
  pub closed : Bool

unfoldable pub new_token_bucket_limiter : Floats → ℕ → Float64 → ℤ → TokenBucketLimiter
new_token_bucket_limiter fl now rate burst = record {
  rate = rate;
  capacity = fl.of_int burst;
  tokens = fl.of_int burst;
  last_update = now;
  closed = false;
}

unfoldable pub refill : Floats → ℕ → TokenBucketLimiter → TokenBucketLimiter
refill fl now l =
    let elapsed = fl.seconds (pos now -ℤ pos l.last_update) in
    let filled = fl.add l.tokens (fl.mul elapsed l.rate) in
    record l { tokens = if fl.lt l.capacity filled then l.capacity else filled; last_update = now }

-- the take that `Allow` and `Wait` make after the refill
unfoldable pub take_token : Floats → TokenBucketLimiter → TokenBucketLimiter × Bool
take_token fl l =
    if fl.le (fl.of_int (pos 1)) l.tokens
    then (record l { tokens = fl.sub l.tokens (fl.of_int (pos 1)) }, true)
    else (l, false)

unfoldable pub allow : Floats → ℕ → TokenBucketLimiter → TokenBucketLimiter × Bool
unfolding refill take_token
allow fl now l = if l.closed then (l, false) else take_token fl (refill fl now l)

unfoldable pub close : TokenBucketLimiter → TokenBucketLimiter
close l = record l { closed = true }

-- `Wait`, over the rounds that its caller's clock and context give it; how long it sleeps between two
-- rounds shows in their times
unfoldable pub wait : Floats → List Round → TokenBucketLimiter → TokenBucketLimiter × WaitResult
unfolding allow
wait fl [] l = (l, WaitResult.waiting)
wait fl (round ∷ rounds) l =
    let (l', taken) = allow fl round.now l in
    let later = wait fl rounds l' in
    if l.closed
    then (l, WaitResult.rate_limit_exceeded)
    else if taken
    then (l', WaitResult.acquired)
    else if round.cancelled
    then (l', WaitResult.context_done)
    else later
