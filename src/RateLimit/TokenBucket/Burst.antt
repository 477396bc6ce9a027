-- ===== src/RateLimit/TokenBucket/Burst.antt =====
-- What the token bucket admits at one time: no more than its burst.
use mathlib.Core.Path.{subst}
use kubectl_mcp.Prelude.{
  ℕ, zero, suc, ◌+◌, ◌^◌, ◌≤◌, ◌<◌, Bool, true, false, List, [], ◌∷◌, ◌≡◌, ◌⊎◌, inl, inr, refl,
  arith, All, Bool-cases, if_elim, sym, if◌then◌else◌,
}
use kubectl_mcp.Prelude.Int.{pos, ◌-ℤ◌}
use kubectl_mcp.Value.{Float64}
use kubectl_mcp.RateLimit.TokenBucket.{Floats, TokenBucketLimiter, refill, take_token, allow}

-- What the limiter relies on, all of which IEEE 754 gives for every operand, infinities and NaN among
-- them: a comparison with NaN is false, rounding is monotonic, and the whole numbers up to 2^53 are
-- exact.
pub record IsIeee (fl : Floats) : Type 0 where
  pub not_below_itself : (x : Float64) → fl.lt x x ≡ false
  pub not_above : (b c x : Float64) → fl.lt c x ≡ true → fl.lt b x ≡ false → fl.lt b c ≡ false
  pub below_one :
      (x : Float64) → fl.lt (fl.of_int (pos 0)) x ≡ false → fl.le (fl.of_int (pos 1)) x ≡ false
  pub less_one :
      (n : ℕ) (x : Float64)
      → n < 2 ^ 53
      → fl.lt (fl.of_int (pos (n + 1))) x ≡ false
      → fl.lt (fl.of_int (pos n)) (fl.sub x (fl.of_int (pos 1))) ≡ false
  -- no time brings nothing, whatever the rate
  pub no_time :
      (b x rate : Float64)
      → fl.lt b x ≡ false
      → fl.lt b (fl.add x (fl.mul (fl.seconds (pos 0)) rate)) ≡ false

-- the limiter after a sequence of calls of `Allow`, and how many it admitted
unfoldable pub allow_all : Floats → List ℕ → TokenBucketLimiter → TokenBucketLimiter × ℕ
allow_all fl [] l = (l, 0)
allow_all fl (now ∷ times) l =
    let (l', taken) = allow fl now l in
    let (l'', n) = allow_all fl times l' in (l'', (if taken then n + 1 else n))

module _ (fl : Floats) (ieee : IsIeee fl) where
  -- the limiter is open, was filled at this time, and has no more tokens than this number
  record Holds (now burst : ℕ) (l : TokenBucketLimiter) : Type 0 where
    open_yet : l.closed ≡ false
    at_now : l.last_update ≡ now
    at_most : fl.lt (fl.of_int (pos burst)) l.tokens ≡ false

  fill-at_most :
      (b x c : Float64) → fl.lt b x ≡ false → fl.lt b (if fl.lt c x then c else x) ≡ false
  fill-at_most b x c h = elim (Bool-cases (fl.lt c x)) [
    | inl over ↦ rw over (ieee.not_above b c x over h)
    | inr within ↦ rw within h
  ]

  -- what a refill leaves is at most the capacity
  filled-at_most :
      (now burst : ℕ) (l : TokenBucketLimiter)
      → l.capacity ≡ fl.of_int (pos burst)
      → fl.lt (fl.of_int (pos burst)) (refill fl now l).tokens ≡ false
  unfolding refill
  filled-at_most now burst l e =
      let filled = fl.add l.tokens (fl.mul (fl.seconds (pos now -ℤ pos l.last_update)) l.rate) in
      elim (Bool-cases (fl.lt l.capacity filled)) [
        | inl over ↦ rw (over, e) (ieee.not_below_itself (fl.of_int (pos burst)))
        | inr within ↦ rw (within, ← e) within
      ]

  same_time : (n : ℕ) → pos n -ℤ pos n ≡ pos 0
  same_time n = ground arith

  refilled-at_most :
      (now burst : ℕ) (l : TokenBucketLimiter)
      → Holds now burst l
      → fl.lt (fl.of_int (pos burst)) (refill fl now l).tokens ≡ false
  unfolding refill
  refilled-at_most now burst l h =
      rw (h.at_now, same_time now)
        (fill-at_most (fl.of_int (pos burst)) (fl.add l.tokens (fl.mul (fl.seconds (pos 0)) l.rate))
          l.capacity (ieee.no_time (fl.of_int (pos burst)) l.tokens l.rate h.at_most))

  -- a call admits nothing, or there is one token less
  abbrev Spends : ℕ → ℕ → TokenBucketLimiter × Bool → Type 0
  Spends now burst (l, taken) =
      ((taken ≡ false) × Holds now burst l)
      ⊎ ((less : ℕ) × (burst ≡ less + 1) × (taken ≡ true) × Holds now less l)

  taken-Spends :
      (now burst : ℕ) (l : TokenBucketLimiter)
      → burst ≤ 2 ^ 53
      → fl.le (fl.of_int (pos 1)) l.tokens ≡ true
      → Holds now burst l
      → Spends now burst (record l { tokens = fl.sub l.tokens (fl.of_int (pos 1)) }, true)
  taken-Spends now zero l fits one h =
      let none_left = ieee.below_one l.tokens h.at_most in absurd (ground (arith, one, none_left))
  taken-Spends now (suc less) l fits one h =
      let next : suc less ≡ less + 1 = omega arith in
      inr (
        less,
        next,
        refl,
        record {
          open_yet = h.open_yet;
          at_now = h.at_now;
          at_most = ieee.less_one less l.tokens (omega arith) (rw (← next) h.at_most);
        },
      )

  take-Spends :
      (now burst : ℕ) (l : TokenBucketLimiter)
      → burst ≤ 2 ^ 53
      → Holds now burst l
      → Spends now burst (take_token fl l)
  unfolding take_token
  take-Spends now burst l fits h =
      if_elim (Spends now burst) (fl.le (fl.of_int (pos 1)) l.tokens)
        (λ one. taken-Spends now burst l fits one h) (λ _. inl (refl, h))

  allow-open :
      (now : ℕ) (l : TokenBucketLimiter)
      → l.closed ≡ false
      → allow fl now l ≡ take_token fl (refill fl now l)
  unfolding allow
  allow-open now l h = ground arith

  allow-Spends :
      (now burst : ℕ) (l : TokenBucketLimiter)
      → burst ≤ 2 ^ 53
      → l.closed ≡ false
      → fl.lt (fl.of_int (pos burst)) (refill fl now l).tokens ≡ false
      → Spends now burst (allow fl now l)
  unfolding refill
  allow-Spends now burst l fits is_open few =
      subst (Spends now burst) (sym (allow-open now l is_open)) (
        take-Spends now burst (refill fl now l) fits
          (record { open_yet = is_open; at_now = refl; at_most = few }))

  admitted-step :
      (times : List ℕ) (t now burst : ℕ) (l : TokenBucketLimiter)
      → ((less : ℕ)
          → less ≤ burst
          → Holds now less (allow fl t l).0
          → (allow_all fl times (allow fl t l).0).1 ≤ less)
      → Spends now burst (allow fl t l)
      → (allow_all fl (t ∷ times) l).1 ≤ burst
  unfolding allow_all
  admitted-step times t now burst l later (inl (refused, h)) =
      ground (arith, later burst (omega arith) h)
  admitted-step times t now burst l later (inr (less, e, taken, h)) =
      ground (arith, later less (omega arith) h)

  admitted-at_most :
      (times : List ℕ) (now burst : ℕ) (l : TokenBucketLimiter)
      → burst ≤ 2 ^ 53
      → All (λ t. t ≡ now) times
      → Holds now burst l
      → (allow_all fl times l).1 ≤ burst
  unfolding allow_all
  admitted-at_most [] now burst l fits same h = omega arith
  admitted-at_most (t ∷ times) now burst l fits same h =
      admitted-step times t now burst l
        (λ less small held.
          admitted-at_most times now less (allow fl t l).0 (omega (arith, small)) same.1 held)
        (rw same.0 (allow-Spends now burst l fits h.open_yet (refilled-at_most now burst l h)))

  allow-shut : (t : ℕ) (l : TokenBucketLimiter) → l.closed ≡ true → allow fl t l ≡ (l, false)
  unfolding allow
  allow-shut t l h =
      if_elim (λ (x : TokenBucketLimiter × Bool). x ≡ (l, false)) l.closed (λ _. refl)
        (λ off. ground arith)

  allow-closed :
      (times : List ℕ) (l : TokenBucketLimiter) → l.closed ≡ true → (allow_all fl times l).1 ≡ 0
  unfolding allow_all
  allow-closed [] l h = refl
  allow-closed (t ∷ times) l h = rw (allow-shut t l h) (allow-closed times l h)

  -- Of the calls of `Allow` that read the clock at the same time, a limiter admits no more than its
  -- burst, in whatever state they find it and whatever its rate: a burst of at most 2^53, over
  -- the arithmetic of IEEE 754.
  pub allow_all-burst :
      (times : List ℕ) (now burst : ℕ) (l : TokenBucketLimiter)
      → burst ≤ 2 ^ 53
      → l.capacity ≡ fl.of_int (pos burst)
      → All (λ t. t ≡ now) times
      → (allow_all fl times l).1 ≤ burst
  unfolding allow_all
  allow_all-burst [] now burst l fits capacity same = omega arith
  allow_all-burst (t ∷ times) now burst l fits capacity same = elim (Bool-cases l.closed) [
    | inl shut ↦ ground (arith, allow-closed (t ∷ times) l shut)
    | inr is_open ↦
        admitted-step times t now burst l
          (λ less small held.
            admitted-at_most times now less (allow fl t l).0 (omega (arith, small)) same.1 held)
          (rw same.0 (allow-Spends now burst l fits is_open (filled-at_most now burst l capacity)))
  ]
