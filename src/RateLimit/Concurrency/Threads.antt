-- ===== src/RateLimit/Concurrency/Threads.antt =====
-- Goroutines that share the limiter: any number of them, each at some point of taking or giving
-- back its permit, in any interleaving of their steps.
use kubectl_mcp.Prelude.{
  ℕ, zero, suc, ◌∙◌, ◌+◌, ◌^◌, ◌≤◌, ◌<◌, Bool, true, false, some, List, [], ◌∷◌, ◌++◌, ◌≡◌, refl,
  arith, count, count-append, if◌then◌else◌,
}
use kubectl_mcp.Prelude.Int.{ℤ}
use kubectl_mcp.RateLimit.Concurrency.{
  ConcurrencyLimiter, new_concurrency_limiter, send, count_in, count_out, receive,
}

pub data Phase : Type 0 where
  -- not in the limiter
  idle : Phase
  -- the channel took its value, and the counter does not count it yet
  sent : Phase
  -- its `Acquire` has returned
  holding : Phase
  -- its `Release` has counted it out, and the channel still has its value
  counted_out : Phase

abbrev pub is_holding : Phase → Bool
is_holding Phase.holding = true
is_holding _ = false

-- whether the channel holds a value for it
abbrev pub in_channel : Phase → Bool
in_channel Phase.idle = false
in_channel _ = true

pub record System : Type 0 where
  pub limiter : ConcurrencyLimiter
  pub threads : List Phase

-- one goroutine moves by one step of `Acquire` or `Release`; the others stay where they are
pub data Step (s t : System) : Type 0 where
  send_step :
      (before after : List Phase) (l : ConcurrencyLimiter)
      → s.threads ≡ before ++ Phase.idle ∷ after
      → send s.limiter ≡ some l
      → t ≡ record { limiter = l; threads = before ++ Phase.sent ∷ after }
      → Step s t
  count_in_step :
      (before after : List Phase)
      → s.threads ≡ before ++ Phase.sent ∷ after
      → t ≡ record { limiter = count_in s.limiter; threads = before ++ Phase.holding ∷ after }
      → Step s t
  count_out_step :
      (before after : List Phase)
      → s.threads ≡ before ++ Phase.holding ∷ after
      → t ≡ record { limiter = count_out s.limiter; threads = before ++ Phase.counted_out ∷ after }
      → Step s t
  receive_step :
      (before after : List Phase)
      → s.threads ≡ before ++ Phase.counted_out ∷ after
      → t ≡ record { limiter = receive s.limiter; threads = before ++ Phase.idle ∷ after }
      → Step s t

pub data Reach (s : System) : System → Type 0 where
  here : Reach s s
  next : {t u : System} → Reach s t → Step t u → Reach s u

pub record IsConsistent (s : System) : Type 0 where
  pub in_semaphore : s.limiter.semaphore ≡ count in_channel s.threads
  pub counted : s.limiter.current ≡ count is_holding s.threads
  pub capped : s.limiter.semaphore ≤ s.limiter.max_concurrent

count-holding-le : (threads : List Phase) → count is_holding threads ≤ count in_channel threads
count-holding-le [] = omega arith
count-holding-le (Phase.idle ∷ threads) = omega (arith, count-holding-le threads)
count-holding-le (Phase.sent ∷ threads) = omega (arith, count-holding-le threads)
count-holding-le (Phase.holding ∷ threads) = omega (arith, count-holding-le threads)
count-holding-le (Phase.counted_out ∷ threads) = omega (arith, count-holding-le threads)

-- how the two counts read one goroutine
module _ (threads before after : List Phase) (p : Phase) where
  count_at :
      threads ≡ before ++ p ∷ after
      → (count in_channel threads
          ≡ count in_channel before + (if in_channel p then 1 else 0) + count in_channel after)
        × (count is_holding threads
            ≡ count is_holding before + (if is_holding p then 1 else 0) + count is_holding after)
  count_at at = (
    ground (arith, count-append in_channel before (p ∷ after)),
    ground (arith, count-append is_holding before (p ∷ after)),
  )

module _ (s : System) (before after : List Phase) (p q : Phase) (l : ConcurrencyLimiter) where
  -- one goroutine goes from `p` to `q`, and the limiter follows
  moved :
      s.threads ≡ before ++ p ∷ after
      → IsConsistent s
      → l.semaphore + (if in_channel p then 1 else 0)
        ≡ s.limiter.semaphore + (if in_channel q then 1 else 0)
      → l.current + (if is_holding p then 1 else 0)
        ≡ s.limiter.current + (if is_holding q then 1 else 0)
      → l.semaphore ≤ l.max_concurrent
      → IsConsistent (record { limiter = l; threads = before ++ q ∷ after })
  moved at c sem cur cap =
      let (old_sem, old_cur) = count_at s.threads before after p at in
      let (new_sem, new_cur) = count_at (before ++ q ∷ after) before after q refl in
      record {
        in_semaphore = omega (arith, c.in_semaphore, old_sem, new_sem, sem);
        counted = omega (arith, c.counted, old_cur, new_cur, cur);
        capped = cap;
      }

-- with a channel whose size is an `int`
pub Step-IsConsistent :
    {s t : System}
    → s.limiter.max_concurrent < 2 ^ 63
    → Step s t
    → IsConsistent s
    → IsConsistent t × (t.limiter.max_concurrent ≡ s.limiter.max_concurrent)
unfolding send count_in count_out receive
Step-IsConsistent {s} {t} m (send_step before after l at room to) c = rw to (
  moved s before after Phase.idle Phase.sent l at c (ground arith) (ground arith) (ground arith),
  ground arith,
)
Step-IsConsistent {s} {t} m (count_in_step before after at to) c =
    let (old_sem, old_cur) = count_at s.threads before after Phase.sent at in
    rw to (
      moved s before after Phase.sent Phase.holding (count_in s.limiter) at c (omega arith)
          (omega (
            arith,
            c.counted,
            c.in_semaphore,
            c.capped,
            old_sem,
            old_cur,
            count-holding-le before,
            count-holding-le after,
          ))
          c.capped,
      refl,
    )
Step-IsConsistent {s} {t} m (count_out_step before after at to) c =
    let (old_sem, old_cur) = count_at s.threads before after Phase.holding at in
    rw to (
      moved s before after Phase.holding Phase.counted_out (count_out s.limiter) at c (ground arith)
          (ground (
            arith,
            c.counted,
            c.in_semaphore,
            c.capped,
            old_sem,
            old_cur,
            count-holding-le before,
            count-holding-le after,
          ))
          (ground (arith, c.capped)),
      ground arith,
    )
Step-IsConsistent {s} {t} m (receive_step before after at to) c =
    let (old_sem, old_cur) = count_at s.threads before after Phase.counted_out at in
    rw to (
      moved s before after Phase.counted_out Phase.idle (receive s.limiter) at c
          (omega (arith, c.in_semaphore, old_sem)) (omega arith) (omega (arith, c.capped)),
      refl,
    )

Reach-IsConsistent :
    {s t : System}
    → s.limiter.max_concurrent < 2 ^ 63
    → IsConsistent s
    → Reach s t
    → IsConsistent t × (t.limiter.max_concurrent ≡ s.limiter.max_concurrent)
Reach-IsConsistent m c here = (c, refl)
Reach-IsConsistent m c (next r st) =
    let (c', same) = Reach-IsConsistent m c r in
    let (c'', same') = Step-IsConsistent (omega (arith, m, same)) st c' in (c'', same' ∙ same)

-- any number of goroutines, none in the limiter
abbrev pub all_idle : ℕ → List Phase
all_idle zero = []
all_idle (suc n) = Phase.idle ∷ all_idle n

count-all_idle : (n : ℕ) → (count in_channel (all_idle n) ≡ 0) × (count is_holding (all_idle n) ≡ 0)
count-all_idle zero = (refl, refl)
count-all_idle (suc n) = let (a, b) = count-all_idle n in (omega (arith, a), omega (arith, b))

-- However the steps of n goroutines on a new limiter interleave: at most `MaxConcurrent` of them
-- hold a permit, the channel holds one value for each goroutine that is in the limiter, and
-- `Current` is the number of those whose `Acquire` has returned.
pub Reach-new :
    (max_concurrent : ℤ) (n : ℕ) {t : System}
    → (new_concurrency_limiter max_concurrent).max_concurrent < 2 ^ 63
    → Reach (record { limiter = new_concurrency_limiter max_concurrent; threads = all_idle n }) t
    → (count is_holding t.threads ≤ (new_concurrency_limiter max_concurrent).max_concurrent)
      × (t.limiter.semaphore ≡ count in_channel t.threads)
      × (t.limiter.current ≡ count is_holding t.threads)
unfolding new_concurrency_limiter
Reach-new max_concurrent n {t} m r =
    let (a, b) = count-all_idle n in
    let (c, same) =
      Reach-IsConsistent m
        (record {
          in_semaphore = omega (arith, a);
          counted = omega (arith, b);
          capped = omega arith;
        })
        r in
    (
      omega (arith, c.in_semaphore, c.capped, same, count-holding-le t.threads),
      c.in_semaphore,
      c.counted,
    )
