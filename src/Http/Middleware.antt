-- ===== src/Http/Middleware.antt =====
-- The middleware of internal/server/http.go, in the order in which `setupMiddleware` installs it,
-- around a route. A handler takes the server's state and returns it with the status it has written;
-- a status of `none` stands for a request that has no answer yet. Recovery and logging, which pass
-- every request on, are left out, and so is the timeout, which may answer while the route still runs.
pub mod Admission
pub mod Permits
pub mod Limits
use kubectl_mcp.Prelude.{
  ℕ, String, Bool, true, false, not, ◌&&◌, ◌||◌, Option, none, some, List, [], ◌∷◌, leb, ltb, ◌==◌,
  str_eq, if◌then◌else◌,
}
use kubectl_mcp.RateLimit.Rounds.{Round}
use kubectl_mcp.RateLimit.TokenBucket.{new_token_bucket_limiter, Floats}
use kubectl_mcp.Prelude.Int.{ℤ, pos, ltb_ℤ, ◌*ℤ◌}
use kubectl_mcp.Paging.{wrap64}
use kubectl_mcp.RateLimit.Concurrency.{new_concurrency_limiter}
use kubectl_mcp.RateLimit.Composite
use kubectl_mcp.RateLimit.Composite.{
  CompositeRateLimiter, Outcome, ok, err_rate_limit_exceeded, err_concurrency_limit_exceeded,
  pending,
}
use kubectl_mcp.Http.Header.{split_at_space, equals_lowered}

-- what the middleware reads of a request
pub record HttpRequest : Type 0 where
  pub method : String
  pub path : String
  pub authorization : String

abbrev pub Handler : Type 0 → Type 0
Handler S = S → S × Option ℕ

-- the errors and the requests that the metrics collector is told of
pub data MetricEvent : Type 0 where
  record_error : String → MetricEvent
  record_request : Bool → MetricEvent

pub record ServerParts (A : Type 0) : Type 0 where
  pub rate_limiter : Option CompositeRateLimiter
  pub metrics : List MetricEvent
  -- what the routes act on
  pub app : A

-- the kind of error that a status counts as
unfoldable pub error_type : ℕ → String
error_type status =
    if leb 500 status
    then "SERVER_ERROR"
    else if status == 429
    then "RATE_LIMIT"
    else if status == 408 || status == 504
    then "TIMEOUT"
    else if status == 401 || status == 403
    then "AUTH_ERROR"
    else if status == 404
    then "NOT_FOUND"
    else "CLIENT_ERROR"

unfoldable pub method_limit_middleware : {S : Type 0} → HttpRequest → Handler S → Handler S
method_limit_middleware req next s =
    if not (str_eq req.method "GET")
      && not (str_eq req.method "POST")
      && not (str_eq req.method "OPTIONS")
    then (s, some 405)
    else next s

-- of the CORS middleware, what it does with a preflight; its headers are not modelled
unfoldable pub cors_middleware : {S : Type 0} → HttpRequest → Handler S → Handler S
cors_middleware req next s = if str_eq req.method "OPTIONS" then (s, some 204) else next s

check_token : {S : Type 0} → String → Option (String × String) → Handler S → Handler S
check_token api_token none next s = (s, some 401)
check_token api_token (some (scheme, token)) next s =
    if not (equals_lowered scheme "bearer")
    then (s, some 401)
    else if not (str_eq token api_token)
    then (s, some 401)
    else next s

unfoldable pub auth_middleware : {S : Type 0} → String → HttpRequest → Handler S → Handler S
unfolding check_token
auth_middleware api_token req next s =
    if str_eq req.path "/health"
    then next s
    else if str_eq req.method "OPTIONS"
    then next s
    else if str_eq req.authorization ""
    then (s, some 401)
    else check_token api_token (split_at_space req.authorization) next s

-- installed only if there is a token
unfoldable pub auth_if_any : {S : Type 0} → String → HttpRequest → Handler S → Handler S
auth_if_any api_token req next s =
    if str_eq api_token "" then next s else auth_middleware api_token req next s

release_if_any : Option CompositeRateLimiter → Option CompositeRateLimiter
release_if_any none = none
release_if_any (some l) = some (Composite.release l)

module _ {A : Type 0} where
  -- the deferred `Release`, whatever the handlers inside have answered
  release_after : ServerParts A × Option ℕ → ServerParts A × Option ℕ
  unfolding release_if_any
  release_after (s, status) = (record s { rate_limiter = release_if_any s.rate_limiter }, status)

  on_acquired : Outcome → Handler (ServerParts A) → Handler (ServerParts A)
  unfolding release_after release_if_any
  on_acquired ok next s = release_after (next s)
  on_acquired err_rate_limit_exceeded next s =
      (record s { metrics = record_error "RATE_LIMIT_EXCEEDED" ∷ s.metrics }, some 429)
  on_acquired err_concurrency_limit_exceeded next s =
      (record s { metrics = record_error "RATE_LIMIT_EXCEEDED" ∷ s.metrics }, some 429)
  on_acquired pending next s = (s, none)

  acquire_first :
      Floats
      → List Round
      → Bool
      → Option CompositeRateLimiter
      → Handler (ServerParts A)
      → Handler (ServerParts A)
  unfolding on_acquired release_if_any
  acquire_first fl rounds cancelled none next s = next s
  acquire_first fl rounds cancelled (some l) next s =
      let (l', outcome) = Composite.acquire fl rounds cancelled l in
      on_acquired outcome next (record s { rate_limiter = some l' })

  -- the rounds of the limiter's wait, and whether the request's context is done
  unfoldable pub rate_limit_middleware :
      Floats → List Round → Bool → HttpRequest → Handler (ServerParts A) → Handler (ServerParts A)
  unfolding acquire_first release_if_any
  rate_limit_middleware fl rounds cancelled req next s =
      if str_eq req.path "/health" || str_eq req.path "/metrics"
      then next s
      else acquire_first fl rounds cancelled s.rate_limiter next s

  count_status : ServerParts A × Option ℕ → ServerParts A × Option ℕ
  count_status (s, none) = (s, none)
  count_status (s, some status) =
      if ltb status 400
      then (record s { metrics = record_request true ∷ s.metrics }, some status)
      else (
        record s { metrics = record_error (error_type status) ∷ record_request false ∷ s.metrics },
        some status,
      )

  unfoldable pub metrics_middleware : Handler (ServerParts A) → Handler (ServerParts A)
  unfolding count_status
  metrics_middleware next s = count_status (next s)

  on_app : Handler A → Handler (ServerParts A)
  on_app route s = let (a, status) = route s.app in (record s { app = a }, status)

  -- a request through the middleware to its route
  unfoldable pub serve :
      String → Floats → List Round → Bool → HttpRequest → Handler A → Handler (ServerParts A)
  unfolding on_app
  serve api_token fl rounds cancelled req route = cors_middleware req (
      method_limit_middleware req (
        rate_limit_middleware fl rounds cancelled req
          (auth_if_any api_token req (metrics_middleware (on_app route)))))

-- the limiter that `NewHTTPServer` makes of the maximum in the configuration, if it is positive
unfoldable pub new_rate_limiter : Floats → ℕ → ℤ → Option CompositeRateLimiter
new_rate_limiter fl now max_concurrent =
    if ltb_ℤ (pos 0) max_concurrent
    then some (record {
      rate_limiter = some (
          new_token_bucket_limiter fl now (fl.of_int (wrap64 (max_concurrent *ℤ pos 2)))
            (wrap64 (max_concurrent *ℤ pos 4)));
      concurrency_limiter = some (new_concurrency_limiter max_concurrent);
    })
    else none
