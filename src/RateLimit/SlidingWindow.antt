-- ===== src/RateLimit/SlidingWindow.antt =====
-- `SlidingWindowLimiter`: the times of the requests admitted in the window.
pub mod Window
use kubectl_mcp.RateLimit.Rounds.{Round, WaitResult}
use kubectl_mcp.Prelude.{
  ℕ, ◌+◌, ◌-◌, Bool, true, false, List, [], ◌∷◌, ◌++◌, ltb, leb, length, filter, if◌then◌else◌,
}

pub record SlidingWindowLimiter : Type 0 where
  pub window_size : ℕ
  pub max_requests : ℕ
  pub requests : List ℕ
  pub closed : Bool

unfoldable pub new_sliding_window_limiter : ℕ → ℕ → SlidingWindowLimiter
new_sliding_window_limiter window_size max_requests = record {
  window_size = window_size;
  max_requests = max_requests;
  requests = [];
  closed = false;
}

-- `t.After(now.Add(-l.windowSize))`, with the window's size on the other side
abbrev pub in_window : ℕ → ℕ → ℕ → Bool
in_window window_size now t = ltb now (t + window_size)

unfoldable pub allow : ℕ → SlidingWindowLimiter → SlidingWindowLimiter × Bool
allow now l =
    let valid_requests = filter (in_window l.window_size now) l.requests in
    if l.closed
    then (l, false)
    else if leb l.max_requests (length valid_requests)
    then (record l { requests = valid_requests }, false)
    else (record l { requests = valid_requests ++ now ∷ [] }, true)

unfoldable pub close : SlidingWindowLimiter → SlidingWindowLimiter
close l = record l { closed = true }

-- ten milliseconds
abbrev pub retry_time : ℕ
retry_time = 10_000_000

-- the sleep of `Wait` until the oldest request leaves the window
wait_from : ℕ → ℕ → List ℕ → ℕ
wait_from now window_size [] = retry_time
wait_from now window_size (oldest ∷ _) =
    if ltb (oldest + window_size) now then retry_time else oldest + window_size - now

unfoldable pub wait_time : ℕ → SlidingWindowLimiter → ℕ
unfolding wait_from
wait_time now l = wait_from now l.window_size l.requests

-- `Wait`, over the rounds that its caller's clock and context give it: it tries before it reads
-- whether the limiter is closed
unfoldable pub wait : List Round → SlidingWindowLimiter → SlidingWindowLimiter × WaitResult
unfolding allow
wait [] l = (l, WaitResult.waiting)
wait (round ∷ rounds) l =
    let (l', taken) = allow round.now l in
    let later = wait rounds l' in
    if taken
    then (l', WaitResult.acquired)
    else if l'.closed
    then (l', WaitResult.rate_limit_exceeded)
    else if round.cancelled
    then (l', WaitResult.context_done)
    else later
