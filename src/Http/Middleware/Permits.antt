-- ===== src/Http/Middleware/Permits.antt =====
-- What a request through the middleware does to the permits of the concurrency limiter.
use kubectl_mcp.Prelude.{
  ℕ, String, Bool, false, not, ◌&&◌, ◌||◌, Option, none, some, List, ◌≡◌, refl, ltb, str_eq,
  if_elim, ◌∙◌, ap,
}
use kubectl_mcp.RateLimit.Rounds.{Round}
use kubectl_mcp.RateLimit.TokenBucket.{Floats}
use kubectl_mcp.RateLimit.Concurrency.{ConcurrencyLimiter}
use kubectl_mcp.RateLimit.Composite
use kubectl_mcp.RateLimit.Composite.{
  CompositeRateLimiter, Outcome, ok, err_rate_limit_exceeded, err_concurrency_limit_exceeded,
  pending,
}
use kubectl_mcp.RateLimit.Composite.Permits.{Counts, Leaves, release-acquire}
use kubectl_mcp.Http.Middleware.{
  HttpRequest, Handler, ServerParts, cors_middleware, method_limit_middleware, auth_if_any,
  release_after, release_if_any, on_acquired, acquire_first, rate_limit_middleware, count_status,
  metrics_middleware, on_app, serve,
}
use kubectl_mcp.Http.Middleware.Admission.{auth_elim}

module _ {A : Type 0} where
  -- the server has a limiter, and its concurrency limiter is this one
  pub Keeps : Option ConcurrencyLimiter → ServerParts A × Option ℕ → Type 0
  Keeps before x =
      (l : CompositeRateLimiter) × (x.0.rate_limiter ≡ some l) × (l.concurrency_limiter ≡ before)

  count_status-limiter :
      (x : ServerParts A × Option ℕ) → (count_status x).0.rate_limiter ≡ x.0.rate_limiter
  unfolding count_status
  count_status-limiter (s, none) = refl
  count_status-limiter (s, some status) =
      if_elim (λ (y : ServerParts A × Option ℕ). y.0.rate_limiter ≡ s.rate_limiter) (ltb status 400)
        (λ _. refl) (λ _. refl)

  -- the handlers inside the rate limit leave the limiter alone
  inside-limiter :
      (api_token : String) (req : HttpRequest) (route : Handler A) (s : ServerParts A)
      → str_eq req.method "OPTIONS" ≡ false
      → (auth_if_any api_token req (metrics_middleware (on_app route)) s).0.rate_limiter
        ≡ s.rate_limiter
  unfolding metrics_middleware on_app
  inside-limiter api_token req route s no_preflight =
      auth_elim (λ x. x.0.rate_limiter ≡ s.rate_limiter) api_token req
        (metrics_middleware (on_app route)) s no_preflight
        (λ _. count_status-limiter (on_app route s)) refl

  on_acquired-Keeps :
      (before : Option ConcurrencyLimiter) (l : CompositeRateLimiter) (outcome : Outcome)
      (next : Handler (ServerParts A)) (s : ServerParts A)
      → s.rate_limiter ≡ some l
      → (next s).0.rate_limiter ≡ s.rate_limiter
      → Leaves before (l, outcome)
      → Keeps before (on_acquired outcome next s)
  unfolding on_acquired release_after release_if_any Keeps
  on_acquired-Keeps before l ok next s e f h = (Composite.release l, ap release_if_any (f ∙ e), h)
  on_acquired-Keeps before l err_rate_limit_exceeded next s e f h = (l, e, h)
  on_acquired-Keeps before l err_concurrency_limit_exceeded next s e f h = (l, e, h)
  on_acquired-Keeps before l pending next s e f h = (l, e, h)

  acquire_first-Keeps :
      (fl : Floats) (rounds : List Round) (cancelled : Bool) (l : CompositeRateLimiter)
      (next : Handler (ServerParts A)) (s : ServerParts A)
      → ((t : ServerParts A) → (next t).0.rate_limiter ≡ t.rate_limiter)
      → Counts l.concurrency_limiter
      → Keeps l.concurrency_limiter (acquire_first fl rounds cancelled (some l) next s)
  unfolding acquire_first
  acquire_first-Keeps fl rounds cancelled l next s f c =
      let t = record s { rate_limiter = some (Composite.acquire fl rounds cancelled l).0 } in
      on_acquired-Keeps l.concurrency_limiter (Composite.acquire fl rounds cancelled l).0
        (Composite.acquire fl rounds cancelled l).1 next t refl (f t)
        (release-acquire fl rounds cancelled l c)

  rate_limit-Keeps :
      (fl : Floats) (rounds : List Round) (cancelled : Bool) (req : HttpRequest)
      (l : CompositeRateLimiter) (next : Handler (ServerParts A)) (s : ServerParts A)
      → s.rate_limiter ≡ some l
      → ((t : ServerParts A) → (next t).0.rate_limiter ≡ t.rate_limiter)
      → Counts l.concurrency_limiter
      → Keeps l.concurrency_limiter (rate_limit_middleware fl rounds cancelled req next s)
  unfolding rate_limit_middleware Keeps
  rate_limit-Keeps fl rounds cancelled req l next s e f c =
      if_elim (Keeps l.concurrency_limiter)
        (str_eq req.path "/health" || str_eq req.path "/metrics") (λ _. (l, f s ∙ e, refl))
        (λ _. rw e (acquire_first-Keeps fl rounds cancelled l next s f c))

  -- A request gives back every permit that it takes: on a server with a limiter whose count is below
  -- 2^63 - 1, the concurrency limiter is after a request as it was before it, whether the request was
  -- stopped, kept waiting at the limiter, or served by its route.
  pub serve-Keeps :
      (api_token : String) (fl : Floats) (rounds : List Round) (cancelled : Bool)
      (req : HttpRequest) (route : Handler A) (l : CompositeRateLimiter) (s : ServerParts A)
      → s.rate_limiter ≡ some l
      → Counts l.concurrency_limiter
      → Keeps l.concurrency_limiter (serve api_token fl rounds cancelled req route s)
  unfolding serve cors_middleware method_limit_middleware Keeps
  serve-Keeps api_token fl rounds cancelled req route l s e c =
      if_elim (Keeps l.concurrency_limiter) (str_eq req.method "OPTIONS") (λ _. (l, e, refl))
        (λ no_preflight.
          if_elim (Keeps l.concurrency_limiter)
            (not (str_eq req.method "GET")
              && not (str_eq req.method "POST")
              && not (str_eq req.method "OPTIONS"))
            (λ _. (l, e, refl))
            (λ _.
              rate_limit-Keeps fl rounds cancelled req l
                (auth_if_any api_token req (metrics_middleware (on_app route))) s e
                (λ t. inside-limiter api_token req route t no_preflight) c))
