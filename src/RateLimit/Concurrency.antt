-- ===== src/RateLimit/Concurrency.antt =====
-- `ConcurrencyLimiter`: a buffered channel that holds one value for each permit that is out, and a
-- counter. A permit is taken in two steps and given back in two, and other goroutines may run
-- between them.
pub mod Threads
use kubectl_mcp.Prelude.{
  ℕ, ◌+◌, ◌-◌, ◌%◌, ◌^◌, Bool, true, false, ◌&&◌, Option, none, some, ltb, if◌then◌else◌,
}
use kubectl_mcp.Prelude.Int.{ℤ, pos, negsuc}

pub record ConcurrencyLimiter : Type 0 where
  pub max_concurrent : ℕ
  -- how many values the channel `semaphore` holds; its capacity is `max_concurrent`
  pub semaphore : ℕ
  -- the `int64`, by its 64 bits
  pub current : ℕ

-- `if maxConcurrent <= 0 { maxConcurrent = 100 }`
max_or_default : ℤ → ℕ
max_or_default (negsuc n) = 100
max_or_default (pos n) = if ltb 0 n then n else 100

unfoldable pub new_concurrency_limiter : ℤ → ConcurrencyLimiter
unfolding max_or_default
new_concurrency_limiter max_concurrent = record {
  max_concurrent = max_or_default max_concurrent;
  semaphore = 0;
  current = 0;
}

-- `l.semaphore <- struct{}{}`, which proceeds when the channel has room
unfoldable pub send : ConcurrencyLimiter → Option ConcurrencyLimiter
send l =
    if ltb l.semaphore l.max_concurrent
    then some (record l { semaphore = l.semaphore + 1 })
    else none

-- `l.current++` under the mutex, on an `int64`
unfoldable pub count_in : ConcurrencyLimiter → ConcurrencyLimiter
count_in l = record l { current = (l.current + 1) % 2 ^ 64 }

-- `if l.current > 0 { l.current-- }` under the mutex; from 2^63 on the `int64` is negative
unfoldable pub count_out : ConcurrencyLimiter → ConcurrencyLimiter
count_out l =
    if ltb 0 l.current && ltb l.current (2 ^ 63) then record l { current = l.current - 1 } else l

-- `<-l.semaphore`, or nothing when the channel is empty
unfoldable pub receive : ConcurrencyLimiter → ConcurrencyLimiter
receive l = record l { semaphore = l.semaphore - 1 }

-- `TryAcquire`, when no other goroutine runs between its steps
unfoldable pub try_acquire : ConcurrencyLimiter → ConcurrencyLimiter × Bool
unfolding send count_in
try_acquire l = elim (send l) [ some l' ↦ (count_in l', true) | none ↦ (l, false) ]

-- how `Acquire` ends: a channel with room and a context that is done may both be ready, and then
-- the `select` takes either, which `cancelled` decides
pub data AcquireResult : Type 0 where
  acquired : AcquireResult
  context_done : AcquireResult
  -- neither is ready, and the call has not returned
  blocked : AcquireResult

unfoldable pub acquire : Bool → ConcurrencyLimiter → ConcurrencyLimiter × AcquireResult
unfolding send count_in
acquire cancelled l = if cancelled then (l, AcquireResult.context_done) else elim (send l) [
  | some l' ↦ (count_in l', AcquireResult.acquired)
  | none ↦ (l, AcquireResult.blocked)
]

-- `Release`, when no other goroutine runs between its steps
unfoldable pub release : ConcurrencyLimiter → ConcurrencyLimiter
unfolding count_out receive
release l = receive (count_out l)

unfoldable pub available : ConcurrencyLimiter → ℕ
available l = l.max_concurrent - l.semaphore
