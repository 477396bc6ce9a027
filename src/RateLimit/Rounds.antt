-- ===== src/RateLimit/Rounds.antt =====
-- The environment of a `Wait`: the rounds of its loop, and how the call ends.
use kubectl_mcp.Prelude.{ℕ, Bool}

-- One round of `Wait`: when it runs, and whether the request's context ends before the sleep does.
pub record Round : Type 0 where
  pub now : ℕ
  pub cancelled : Bool

pub data WaitResult : Type 0 where
  -- a token was taken
  acquired : WaitResult
  rate_limit_exceeded : WaitResult
  -- `ctx.Err()`
  context_done : WaitResult
  -- the rounds that were given have run out, and the call has not returned
  waiting : WaitResult
