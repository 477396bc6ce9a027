-- ===== src/Deletion/Batch/Progress.antt =====
-- The goroutines of a batch end, after as many steps as there are, where the API answers every call.
use kubectl_mcp.Prelude.{
  ℕ, zero, suc, ◌+◌, ◌*◌, ◌≤◌, ◌<◌, String, Option, List, [], ◌∷◌, ◌⊎◌, inl, inr, ◌≡◌, refl, arith,
  length, length-append, ap,
}
use kubectl_mcp.Deletion.{ApiCalls, Env, Failure}
use kubectl_mcp.Deletion.Batch.{
  BatchDeleteResult, Mutex, unlocked, locked, has_written, BatchState, Step, asks, locks, writes,
  unlocks, leaves, Steps, here, next,
}
use kubectl_mcp.Deletion.Batch.Accounting.{
  start_state, holders, IsFresh, IsAccounted, start-IsAccounted, Steps-IsAccounted,
}

-- the steps that the holder of the mutex has left
abbrev pub steps_of : Mutex → ℕ
steps_of unlocked = 0
steps_of (locked name outcome) = 3
steps_of has_written = 2

-- the steps that are left
abbrev pub steps_left : {K : Type 0} → BatchState K → ℕ
steps_left s = 5 * length s.pending + 4 * length s.in_flight + steps_of s.mutex + s.leaving

holders-steps_of : (m : Mutex) → holders m ≤ steps_of m
holders-steps_of unlocked = omega arith
holders-steps_of (locked name outcome) = omega arith
holders-steps_of has_written = omega arith

module _ {K D C : Type 0} (env : Env K D C) {k : K} {kind namespace : String} where
  Step-steps_left :
      {s t : BatchState K} → Step env k kind namespace s t → steps_left s ≡ steps_left t + 1
  Step-steps_left (asks s before after name e) =
      ground (arith, ap length e, length-append before (name ∷ after), length-append before after)
  Step-steps_left (locks s before after name outcome e free) = ground (
    arith,
    ap length e,
    ap steps_of free,
    length-append before ((name, outcome) ∷ after),
    length-append before after,
  )
  Step-steps_left (writes s name outcome e) = ground (arith, ap steps_of e)
  Step-steps_left (unlocks s e) = ground (arith, ap steps_of e)
  Step-steps_left (leaves s n e) = ground (arith, e)

  Steps-steps_left :
      {s t : BatchState K} {n : ℕ}
      → Steps env k kind namespace s n t
      → steps_left s ≡ n + steps_left t
  Steps-steps_left here = omega arith
  Steps-steps_left (next r st) = omega (arith, Steps-steps_left r, Step-steps_left st)

  progresses :
      (s : BatchState K) (pending : List String) (in_flight : List (String × Option Failure))
      (mutex : Mutex) (leaving : ℕ)
      → s.pending ≡ pending
      → s.in_flight ≡ in_flight
      → s.mutex ≡ mutex
      → s.leaving ≡ leaving
      → ((0 < steps_left s) × ((t : BatchState K) × Step env k kind namespace s t))
        ⊎ (steps_left s ≡ 0)
  progresses s pending in_flight (locked name outcome) leaving p q m l =
      inl (omega (arith, ap steps_of m), (_, writes s name outcome m))
  progresses s pending in_flight has_written leaving p q m l =
      inl (omega (arith, ap steps_of m), (_, unlocks s m))
  progresses s pending in_flight unlocked (suc n) p q m l =
      inl (omega (arith, l), (_, leaves s n (omega (arith, l))))
  progresses s (name ∷ pending) in_flight unlocked zero p q m l =
      inl (ground (arith, ap length p), (_, asks s [] pending name p))
  progresses s [] ((name, outcome) ∷ in_flight) unlocked zero p q m l =
      inl (ground (arith, ap length q), (_, locks s [] in_flight name outcome q m))
  progresses s [] [] unlocked zero p q m l =
      inr (ground (arith, ap length p, ap length q, ap steps_of m, l))

  -- Where the API answers every call, a batch cannot run for ever and cannot be stuck, at the mutex or
  -- at the WaitGroup: a run that has made fewer steps than five for each name can make another one,
  -- and one that has made that many has brought the WaitGroup to zero, on which `wg.Wait()` returns.
  pub batch_ends :
      {t : BatchState K} {n : ℕ} (names : List String) (r : BatchDeleteResult) (calls : ApiCalls K)
      → IsFresh r
      → Steps env k kind namespace (start_state names r calls) n t
      → ((n < 5 * length names) × ((u : BatchState K) × Step env k kind namespace t u))
        ⊎ ((n ≡ 5 * length names) × (t.wait_group ≡ 0))
  batch_ends {t} {n} names r calls fresh steps =
      let e : steps_left (start_state names r calls) ≡ n + steps_left t = Steps-steps_left steps in
      let v : IsAccounted names t =
        Steps-IsAccounted env steps (start-IsAccounted names r calls fresh) in
      elim (progresses t t.pending t.in_flight t.mutex t.leaving refl refl refl refl) [
        | inl (more, step) ↦ inl (omega arith, step)
        | inr none_left ↦
            inr (omega arith, omega (arith, v.running, none_left, holders-steps_of t.mutex))
      ]
