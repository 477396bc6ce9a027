-- ===== src/RateLimit/Tests.antt =====
-- Runs of the limiters on small inputs, and the theorems at inputs that meet their hypotheses.
use kubectl_mcp.Prelude.{◌≤◌, false, some, [], ◌∷◌, ◌≡◌, refl, arith, count}
use kubectl_mcp.Prelude.Int.{pos, negsuc}
use kubectl_mcp.RateLimit.Rounds.{Round}
use kubectl_mcp.RateLimit.TokenBucket
use kubectl_mcp.RateLimit.TokenBucket.{Floats, TokenBucketLimiter}
use kubectl_mcp.RateLimit.TokenBucket.Burst.{allow_all, allow_all-burst}
use kubectl_mcp.RateLimit.Whole.{whole, whole-IsIeee}
use kubectl_mcp.RateLimit.SlidingWindow
use kubectl_mcp.RateLimit.SlidingWindow.{new_sliding_window_limiter}
use kubectl_mcp.RateLimit.SlidingWindow.Window.{admitted, in_stretch, admitted-window}
use kubectl_mcp.RateLimit.Concurrency.{new_concurrency_limiter, send, count_in}
use kubectl_mcp.RateLimit.Concurrency.Threads.{
  Phase, System, Reach, send_step, count_in_step, here, next, is_holding, in_channel, all_idle,
  Reach-new,
}
use kubectl_mcp.RateLimit.Composite.{CompositeRateLimiter}

-- two tokens a second, a burst of two
abbrev bucket : TokenBucketLimiter
bucket = record {
  rate = record { bits = 2 };
  capacity = record { bits = 2 };
  tokens = record { bits = 2 };
  last_update = 0;
  closed = false;
}

-- the third call is too early, and a second later there are tokens again
third_refused : (allow_all whole (1 ∷ 1 ∷ 1 ∷ 1_000_000_001 ∷ []) bucket).1 ≡ 3
unfolding allow_all TokenBucket.allow
third_refused = refl

allow_all-burst_example : (allow_all whole (5 ∷ 5 ∷ 5 ∷ []) bucket).1 ≤ 2
allow_all-burst_example =
    allow_all-burst whole whole-IsIeee (5 ∷ 5 ∷ 5 ∷ []) 5 2 bucket (omega arith) refl
      (refl, (refl, (refl, tt)))

window_slides :
    admitted (1 ∷ 2 ∷ 3 ∷ 11 ∷ 12 ∷ 13 ∷ []) (new_sliding_window_limiter 10 2)
    ≡ 1 ∷ 2 ∷ 11 ∷ 12 ∷ []
unfolding admitted SlidingWindow.allow new_sliding_window_limiter
window_slides = refl

admitted-window_example :
    count (in_stretch 2 10) (admitted (1 ∷ 2 ∷ 3 ∷ []) (new_sliding_window_limiter 10 2)) ≤ 2
admitted-window_example =
    admitted-window 10 2 0 (1 ∷ 2 ∷ 3 ∷ []) 2 (omega arith, (omega arith, (omega arith, tt)))

-- one of two goroutines takes the only permit
abbrev one_holds : System
one_holds = record {
  limiter = record { max_concurrent = 1; semaphore = 1; current = 1 };
  threads = Phase.idle ∷ Phase.holding ∷ [];
}

one_holds-Reach :
    Reach (record { limiter = new_concurrency_limiter (pos 1); threads = all_idle 2 }) one_holds
unfolding new_concurrency_limiter send count_in
one_holds-Reach =
    next
      (next here (
        send_step (Phase.idle ∷ []) [] (record { max_concurrent = 1; semaphore = 1; current = 0 })
          refl refl refl))
      (count_in_step (Phase.idle ∷ []) [] refl refl)

Reach-new_example :
    (count is_holding one_holds.threads ≤ (new_concurrency_limiter (pos 1)).max_concurrent)
    × (one_holds.limiter.semaphore ≡ count in_channel one_holds.threads)
    × (one_holds.limiter.current ≡ count is_holding one_holds.threads)
unfolding new_concurrency_limiter
Reach-new_example = Reach-new (pos 1) 2 (omega arith) one_holds-Reach

default_maximum : (new_concurrency_limiter (negsuc 4)).max_concurrent ≡ 100
unfolding new_concurrency_limiter
default_maximum = refl

abbrev composite : CompositeRateLimiter
composite = record {
  rate_limiter = some bucket;
  concurrency_limiter = some (record { max_concurrent = 1; semaphore = 0; current = 0 });
}

abbrev round : Round
round = record { now = 1; cancelled = false }
