-- ===== src/Http/Middleware/Admission.antt =====
-- Which requests reach a route, and what the others and all of them leave behind.
use Prim.Native.String.{◌++◌}
use kubectl_mcp.Prelude.{
  ◌==◌, ℕ, String, Bool, true, false, not, ◌&&◌, ◌||◌, Option, none, some, List, ◌≡◌, ◌≢◌, ◌⊎◌, inl,
  inr, refl, ap, arith, ltb, str_eq, str_eq_iff, if_elim, Bool-cases,
}
use kubectl_mcp.RateLimit.Rounds.{Round}
use kubectl_mcp.RateLimit.TokenBucket.{Floats}
use kubectl_mcp.RateLimit.Composite
use kubectl_mcp.RateLimit.Composite.{
  CompositeRateLimiter, Outcome, ok, err_rate_limit_exceeded, err_concurrency_limit_exceeded,
  pending,
}
use kubectl_mcp.Mcp.{ErrorInfo}
use kubectl_mcp.Http.Header.{split_at_space, equals_lowered, split_at_space-append}
use kubectl_mcp.Http.ToolCall.{get_http_status_from_error}
use kubectl_mcp.Http.Middleware.{
  HttpRequest, Handler, ServerParts, error_type, cors_middleware, method_limit_middleware,
  check_token, auth_middleware, auth_if_any, release_after, on_acquired, acquire_first,
  rate_limit_middleware, count_status, metrics_middleware, on_app, serve,
}

-- the header has the scheme Bearer, in any case, a space and the token
pub HasToken : String → HttpRequest → Type 0
HasToken api_token req =
    (scheme : String) × (req.authorization ≡ scheme ++ (" " ++ api_token))
    × (equals_lowered scheme "bearer" ≡ true)

-- what authentication asks for: nothing without a token or of `/health`, else the token
pub HasAccess : String → HttpRequest → Type 0
HasAccess api_token req = (api_token ≡ "") ⊎ (req.path ≡ "/health") ⊎ HasToken api_token req

pub IsAdmitted : String → HttpRequest → Type 0
IsAdmitted api_token req = ((req.method ≡ "GET") ⊎ (req.method ≡ "POST")) × HasAccess api_token req

get_or_post :
    (req : HttpRequest)
    → str_eq req.method "OPTIONS" ≡ false
    → (not (str_eq req.method "GET")
        && not (str_eq req.method "POST")
        && not (str_eq req.method "OPTIONS"))
      ≡ false
    → (req.method ≡ "GET") ⊎ (req.method ≡ "POST")
get_or_post req h k = ground (arith, str_eq_iff req.method "GET", str_eq_iff req.method "POST")

-- no answer yet, or one of the four statuses with which the middleware stops a request
pub IsRefusal : Option ℕ → Type 0
IsRefusal status =
    (status ≡ none)
    ⊎ (status ≡ some 204)
    ⊎ (status ≡ some 405)
    ⊎ (status ≡ some 429)
    ⊎ (status ≡ some 401)

module _ {S : Type 0} (P : S × Option ℕ → Type 0) where
  check_token_elim :
      (api_token : String) (o : Option (String × String)) (next : Handler S) (s : S)
      → ((scheme : String)
          → o ≡ some (scheme, api_token)
          → equals_lowered scheme "bearer" ≡ true
          → P (next s))
      → P (s, some 401)
      → P (check_token api_token o next s)
  unfolding check_token
  check_token_elim api_token none next s p q = q
  check_token_elim api_token (some (scheme, token)) next s p q =
      if_elim P (not (equals_lowered scheme "bearer")) (λ _. q)
        (λ bearer.
          if_elim P (not (str_eq token api_token)) (λ _. q)
            (λ same.
              let e : token ≡ api_token = ground (arith, str_eq_iff token api_token) in
              p scheme (rw e refl) (ground arith)))

  pub auth_elim :
      (api_token : String) (req : HttpRequest) (next : Handler S) (s : S)
      → str_eq req.method "OPTIONS" ≡ false
      → (HasAccess api_token req → P (next s))
      → P (s, some 401)
      → P (auth_if_any api_token req next s)
  unfolding auth_if_any auth_middleware HasAccess HasToken
  auth_elim api_token req next s no_preflight p q =
      if_elim P (str_eq api_token "") (λ e. p (inl ((str_eq_iff api_token "").0 e)))
        (λ _.
          if_elim P (str_eq req.path "/health")
            (λ e. p (inr (inl ((str_eq_iff req.path "/health").0 e))))
            (λ _.
              if_elim P (str_eq req.method "OPTIONS") (λ e. ground arith)
                (λ _.
                  if_elim P (str_eq req.authorization "") (λ _. q)
                    (λ _.
                      check_token_elim api_token (split_at_space req.authorization) next s
                        (λ scheme e b. p (
                          inr (
                            inr (
                              scheme,
                              split_at_space-append req.authorization scheme api_token e,
                              b,
                            ))))
                        q))))

-- a property of what the routes act on and of the status
module _ {A : Type 0} (P : A → Option ℕ → Type 0) where
  count_status-keeps :
      (x : ServerParts A × Option ℕ) → P x.0.app x.1 → P (count_status x).0.app (count_status x).1
  unfolding count_status
  count_status-keeps (s, none) p = p
  count_status-keeps (s, some status) p =
      if_elim (λ (y : ServerParts A × Option ℕ). P y.0.app y.1) (ltb status 400) (λ _. p) (λ _. p)

  on_acquired-keeps :
      (outcome : Outcome) (next : Handler (ServerParts A)) (s : ServerParts A)
      → P (next s).0.app (next s).1
      → ((status : Option ℕ) → IsRefusal status → P s.app status)
      → P (on_acquired outcome next s).0.app (on_acquired outcome next s).1
  unfolding on_acquired release_after IsRefusal
  on_acquired-keeps ok next s p q = p
  on_acquired-keeps err_rate_limit_exceeded next s p q = q (some 429) (ground arith)
  on_acquired-keeps err_concurrency_limit_exceeded next s p q = q (some 429) (ground arith)
  on_acquired-keeps pending next s p q = q none (ground arith)

  acquire_first-keeps :
      (fl : Floats) (rounds : List Round) (cancelled : Bool) (o : Option CompositeRateLimiter)
      (next : Handler (ServerParts A)) (s : ServerParts A)
      → ((t : ServerParts A) → t.app ≡ s.app → P (next t).0.app (next t).1)
      → ((status : Option ℕ) → IsRefusal status → P s.app status)
      → P
          (acquire_first fl rounds cancelled o next s).0.app
          (acquire_first fl rounds cancelled o next s).1
  unfolding acquire_first
  acquire_first-keeps fl rounds cancelled none next s p q = p s refl
  acquire_first-keeps fl rounds cancelled (some l) next s p q =
      let t = record s { rate_limiter = some (Composite.acquire fl rounds cancelled l).0 } in
      on_acquired-keeps (Composite.acquire fl rounds cancelled l).1 next t (p t refl) q

  rate_limit-keeps :
      (fl : Floats) (rounds : List Round) (cancelled : Bool) (req : HttpRequest)
      (next : Handler (ServerParts A)) (s : ServerParts A)
      → ((t : ServerParts A) → t.app ≡ s.app → P (next t).0.app (next t).1)
      → ((status : Option ℕ) → IsRefusal status → P s.app status)
      → P
          (rate_limit_middleware fl rounds cancelled req next s).0.app
          (rate_limit_middleware fl rounds cancelled req next s).1
  unfolding rate_limit_middleware
  rate_limit-keeps fl rounds cancelled req next s p q =
      if_elim (λ (x : ServerParts A × Option ℕ). P x.0.app x.1)
        (str_eq req.path "/health" || str_eq req.path "/metrics") (λ _. p s refl)
        (λ _. acquire_first-keeps fl rounds cancelled s.rate_limiter next s p q)

module _ {A : Type 0} (api_token : String) (req : HttpRequest) (route : Handler A) where
  pub Served : A → A → Option ℕ → Type 0
  Served a a' status =
      ((a' ≡ a) × IsRefusal status)
      ⊎ (IsAdmitted api_token req × (a' ≡ (route a).0) × (status ≡ (route a).1))

  routed-Served :
      (a : A) (t : ServerParts A)
      → IsAdmitted api_token req
      → t.app ≡ a
      → Served a (metrics_middleware (on_app route) t).0.app (metrics_middleware (on_app route) t).1
  unfolding metrics_middleware on_app Served
  routed-Served a t admitted e =
      count_status-keeps (Served a) (on_app route t)
        (inr (admitted, ap (λ x. (route x).0) e, ap (λ x. (route x).1) e))

  stopped : (a : A) (status : Option ℕ) → IsRefusal status → Served a a status
  unfolding Served
  stopped a status r = inl (refl, r)

  -- A request either reaches its route, and then its method is GET or POST and it has access: there
  -- is no token to ask for, or its path is /health, or it has the token. Or the middleware stops it,
  -- and then what the routes act on is as it was.
  pub serve-Served :
      (fl : Floats) (rounds : List Round) (cancelled : Bool) (s : ServerParts A)
      → Served s.app
          (serve api_token fl rounds cancelled req route s).0.app
          (serve api_token fl rounds cancelled req route s).1
  unfolding serve cors_middleware method_limit_middleware IsRefusal IsAdmitted
  serve-Served fl rounds cancelled s =
      let Good : ServerParts A × Option ℕ → Type 0 = λ x. Served s.app x.0.app x.1 in
      if_elim Good (str_eq req.method "OPTIONS") (λ _. stopped s.app (some 204) (ground arith))
        (λ no_preflight.
          if_elim Good
            (not (str_eq req.method "GET")
              && not (str_eq req.method "POST")
              && not (str_eq req.method "OPTIONS"))
            (λ _. stopped s.app (some 405) (ground arith))
            (λ allowed.
              rate_limit-keeps (Served s.app) fl rounds cancelled req
                (auth_if_any api_token req (metrics_middleware (on_app route))) s
                (λ t e.
                  auth_elim (λ x. Served s.app x.0.app x.1) api_token req
                    (metrics_middleware (on_app route)) t no_preflight
                    (λ access.
                      routed-Served s.app t (get_or_post req no_preflight allowed, access) e)
                    (rw e (stopped s.app (some 401) (ground arith))))
                (stopped s.app)))

timeout-408 : (n : ℕ) → error_type n ≡ "TIMEOUT" → n ≡ 408
unfolding error_type
timeout-408 n h = ground (
  arith,
  str_eq_iff "SERVER_ERROR" "TIMEOUT",
  str_eq_iff "RATE_LIMIT" "TIMEOUT",
  str_eq_iff "AUTH_ERROR" "TIMEOUT",
  str_eq_iff "NOT_FOUND" "TIMEOUT",
  str_eq_iff "CLIENT_ERROR" "TIMEOUT",
)

status-not_408 : (e : Option ErrorInfo) → get_http_status_from_error e ≢ 408
unfolding get_http_status_from_error
status-not_408 none h = ground arith
status-not_408 (some e) h = ground arith

status-504 : (status : ℕ) → (status ≢ 504) ⊎ (error_type status ≡ "SERVER_ERROR")
unfolding error_type
status-504 status = elim (Bool-cases (status == 504)) [
  | inl is ↦ inr (ground (arith, is))
  | inr not_it ↦ inl (λ e. ground (arith, e, not_it))
]

-- No error of a tool's call has the status 408 or is counted as a timeout, and where its status is
-- 504, that of a timeout, it is counted as a server error.
pub tool_error-not_timeout :
    (e : Option ErrorInfo)
    → (get_http_status_from_error e ≢ 408)
      × (error_type (get_http_status_from_error e) ≢ "TIMEOUT")
      × ((get_http_status_from_error e ≢ 504)
          ⊎ (error_type (get_http_status_from_error e) ≡ "SERVER_ERROR"))
tool_error-not_timeout e = (
  status-not_408 e,
  (λ h. status-not_408 e (timeout-408 (get_http_status_from_error e) h)),
  status-504 (get_http_status_from_error e),
)
