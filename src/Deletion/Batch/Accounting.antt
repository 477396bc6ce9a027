-- ===== src/Deletion/Batch/Accounting.antt =====
-- Every name of a batch is accounted for, in any order of the steps of the goroutines.
use kubectl_mcp.Prelude.{
  ℕ, ◌+◌, ◌-◌, String, Option, none, some, List, [], ◌∷◌, ◌++◌, ◌≡◌, arith, length, length-append,
  count, count-append, str_eq, ap,
}
use kubectl_mcp.Deletion.{ApiCalls, Env, Failure}
use kubectl_mcp.Deletion.Batch.{
  BatchDeleteResult, Mutex, unlocked, locked, has_written, BatchState, record_outcome, Step, asks,
  locks, writes, unlocks, leaves, Steps, here, next,
}

-- how often a list has a name, alone or beside something else
abbrev pub occurs : String → List String → ℕ
occurs name names = count (λ n. str_eq n name) names

abbrev pub occurs_in : {A : Type 0} → String → List (String × A) → ℕ
occurs_in name entries = count (λ entry. str_eq entry.0 name) entries

-- what the holder of the mutex is to write
abbrev pub held : Mutex → List (String × Option Failure)
held unlocked = []
held (locked name outcome) = (name, outcome) ∷ []
held has_written = []

-- how many goroutines are between their `mu.Lock()` and their `mu.Unlock()`
abbrev pub holders : Mutex → ℕ
holders unlocked = 0
holders (locked name outcome) = 1
holders has_written = 1

module _ {K : Type 0} where
  -- Each name is as often waiting, asked for, about to be written, deleted or failed as it was given;
  -- the counters are the lengths of the lists, and the WaitGroup counts the goroutines that run.
  pub record IsAccounted (names : List String) (s : BatchState K) : Type 0 where
    pub each :
        (name : String)
        → occurs name s.pending
            + occurs_in name s.in_flight
            + occurs_in name (held s.mutex)
            + occurs name s.result.success_list
            + occurs_in name s.result.failure_list
          ≡ occurs name names
    pub successes : s.result.success_count ≡ length s.result.success_list
    pub failures : s.result.failure_count ≡ length s.result.failure_list
    pub all :
        length s.pending
          + length s.in_flight
          + length (held s.mutex)
          + length s.result.success_list
          + length s.result.failure_list
        ≡ length names
    pub running : s.wait_group ≡ length s.pending + length s.in_flight + holders s.mutex + s.leaving

  locked-IsAccounted :
      (names : List String) (s : BatchState K) (before after : List (String × Option Failure))
      (name : String) (outcome : Option Failure)
      → s.in_flight ≡ before ++ (name, outcome) ∷ after
      → s.mutex ≡ unlocked
      → IsAccounted names s
      → IsAccounted names (record s { in_flight = before ++ after; mutex = locked name outcome })
  locked-IsAccounted names s before after name outcome e free v = record {
    each = λ n. ground (
      arith,
      v.each n,
      ap (occurs_in n) e,
      ap (λ m. occurs_in n (held m)) free,
      count-append (λ (entry : String × Option Failure). str_eq entry.0 n) before
          ((name, outcome) ∷ after),
      count-append (λ (entry : String × Option Failure). str_eq entry.0 n) before after,
    );
    successes = v.successes;
    failures = v.failures;
    all = ground (
      arith,
      v.all,
      ap length e,
      ap (λ m. length (held m)) free,
      length-append before ((name, outcome) ∷ after),
      length-append before after,
    );
    running = ground (
      arith,
      v.running,
      ap length e,
      ap holders free,
      length-append before ((name, outcome) ∷ after),
      length-append before after,
    );
  }

  record_outcome-IsAccounted :
      (names : List String) (s : BatchState K) (name : String) (outcome : Option Failure)
      → s.mutex ≡ locked name outcome
      → IsAccounted names s
      → IsAccounted names
          (record s { mutex = has_written; result = record_outcome name outcome s.result })
  unfolding record_outcome
  record_outcome-IsAccounted names s name none e v = record {
    each = λ n. ground (
      arith,
      v.each n,
      ap (λ m. occurs_in n (held m)) e,
      count-append (λ (m : String). str_eq m n) s.result.success_list (name ∷ []),
    );
    successes = ground (arith, v.successes, length-append s.result.success_list (name ∷ []));
    failures = ground (arith, v.failures);
    all = ground (
      arith,
      v.all,
      ap (λ m. length (held m)) e,
      length-append s.result.success_list (name ∷ []),
    );
    running = ground (arith, v.running, ap holders e);
  }
  record_outcome-IsAccounted names s name (some x) e v = record {
    each = λ n. ground (
      arith,
      v.each n,
      ap (λ m. occurs_in n (held m)) e,
      count-append (λ (entry : String × Failure). str_eq entry.0 n) s.result.failure_list
          ((name, x) ∷ []),
    );
    successes = ground (arith, v.successes);
    failures = ground (arith, v.failures, length-append s.result.failure_list ((name, x) ∷ []));
    all = ground (
      arith,
      v.all,
      ap (λ m. length (held m)) e,
      length-append s.result.failure_list ((name, x) ∷ []),
    );
    running = ground (arith, v.running, ap holders e);
  }

  unlocked-IsAccounted :
      (names : List String) (s : BatchState K)
      → s.mutex ≡ has_written
      → IsAccounted names s
      → IsAccounted names (record s { mutex = unlocked; leaving = s.leaving + 1 })
  unlocked-IsAccounted names s e v = record {
    each = λ n. ground (arith, v.each n, ap (λ m. occurs_in n (held m)) e);
    successes = v.successes;
    failures = v.failures;
    all = ground (arith, v.all, ap (λ m. length (held m)) e);
    running = ground (arith, v.running, ap holders e);
  }

  left-IsAccounted :
      (names : List String) (s : BatchState K) (n : ℕ)
      → s.leaving ≡ n + 1
      → IsAccounted names s
      → IsAccounted names (record s { leaving = n; wait_group = s.wait_group - 1 })
  left-IsAccounted names s n e v = record {
    each = v.each;
    successes = v.successes;
    failures = v.failures;
    all = v.all;
    running = ground (arith, v.running);
  }

  asked-IsAccounted :
      (names : List String) (s : BatchState K) (before after : List String) (name : String)
      (outcome : Option Failure) (calls : ApiCalls K)
      → s.pending ≡ before ++ name ∷ after
      → IsAccounted names s
      → IsAccounted names (record s {
        pending = before ++ after;
        in_flight = (name, outcome) ∷ s.in_flight;
        calls = calls;
      })
  asked-IsAccounted names s before after name outcome calls e v = record {
    each = λ n. ground (
      arith,
      v.each n,
      ap (occurs n) e,
      count-append (λ (m : String). str_eq m n) before (name ∷ after),
      count-append (λ (m : String). str_eq m n) before after,
    );
    successes = v.successes;
    failures = v.failures;
    all = ground (
      arith,
      v.all,
      ap length e,
      length-append before (name ∷ after),
      length-append before after,
    );
    running = ground (
      arith,
      v.running,
      ap length e,
      length-append before (name ∷ after),
      length-append before after,
    );
  }

-- The state in which the goroutines start: `wg.Wait()` comes after `wg.Add(1)` for every name.
abbrev pub start_state : {K : Type 0} → List String → BatchDeleteResult → ApiCalls K → BatchState K
start_state names r calls = record {
  pending = names;
  in_flight = [];
  mutex = unlocked;
  leaving = 0;
  wait_group = length names;
  result = r;
  calls = calls;
}

-- nothing is counted yet
pub record IsFresh (r : BatchDeleteResult) : Type 0 where
  pub no_success : r.success_list ≡ []
  pub no_failure : r.failure_list ≡ []
  pub success_zero : r.success_count ≡ 0
  pub failure_zero : r.failure_count ≡ 0

pub start-IsAccounted :
    {K : Type 0} (names : List String) (r : BatchDeleteResult) (calls : ApiCalls K)
    → IsFresh r
    → IsAccounted names (start_state names r calls)
start-IsAccounted names r calls f = record {
  each = λ n. ground (arith, ap (occurs n) f.no_success, ap (occurs_in n) f.no_failure);
  successes = ground (arith, ap length f.no_success, f.success_zero);
  failures = ground (arith, ap length f.no_failure, f.failure_zero);
  all = ground (arith, ap length f.no_success, ap length f.no_failure);
  running = omega arith;
}

empty-counts :
    (pending : List String) (in_flight : List (String × Option Failure)) (mutex : Mutex)
    → length pending ≡ 0
    → length in_flight ≡ 0
    → holders mutex ≡ 0
    → ((name : String)
        → occurs name pending + occurs_in name in_flight + occurs_in name (held mutex) ≡ 0)
      × (length pending + length in_flight + length (held mutex) ≡ 0)
empty-counts [] [] unlocked p q h = ((λ name. omega arith), omega arith)
empty-counts [] [] (locked name outcome) p q h = absurd (omega arith)
empty-counts [] [] has_written p q h = ((λ name. omega arith), omega arith)
empty-counts [] (entry ∷ in_flight) mutex p q h = absurd (omega arith)
empty-counts (name ∷ pending) in_flight mutex p q h = absurd (omega arith)

module _ {K D C : Type 0} (env : Env K D C) {k : K} {kind namespace : String} where
  Step-IsAccounted :
      {names : List String} {s t : BatchState K}
      → Step env k kind namespace s t
      → IsAccounted names s
      → IsAccounted names t
  Step-IsAccounted {names} (asks s before after name e) v =
      asked-IsAccounted names s before after name _ _ e v
  Step-IsAccounted {names} (locks s before after name outcome e free) v =
      locked-IsAccounted names s before after name outcome e free v
  Step-IsAccounted {names} (writes s name outcome e) v =
      record_outcome-IsAccounted names s name outcome e v
  Step-IsAccounted {names} (unlocks s e) v = unlocked-IsAccounted names s e v
  Step-IsAccounted {names} (leaves s n e) v = left-IsAccounted names s n e v

  pub Steps-IsAccounted :
      {names : List String} {s t : BatchState K} {n : ℕ}
      → Steps env k kind namespace s n t
      → IsAccounted names s
      → IsAccounted names t
  Steps-IsAccounted here v = v
  Steps-IsAccounted (next r st) v = Step-IsAccounted st (Steps-IsAccounted r v)

  -- When `wg.Wait()` returns, in whatever order the goroutines of a batch ran, each name that was given
  -- has succeeded or failed exactly as often as it was given, the two counters are the lengths of the
  -- two lists, and their sum is the number of the names.
  pub finished-accounted :
      {t : BatchState K} {n : ℕ} (names : List String) (r : BatchDeleteResult) (calls : ApiCalls K)
      → IsFresh r
      → Steps env k kind namespace (start_state names r calls) n t
      → t.wait_group ≡ 0
      → ((name : String)
          → occurs name t.result.success_list + occurs_in name t.result.failure_list
            ≡ occurs name names)
        × (t.result.success_count ≡ length t.result.success_list)
        × (t.result.failure_count ≡ length t.result.failure_list)
        × (t.result.success_count + t.result.failure_count ≡ length names)
  finished-accounted {t} names r calls f steps zero_left =
      let v : IsAccounted names t = Steps-IsAccounted steps (start-IsAccounted names r calls f) in
      let (none_left, empty) =
        empty-counts t.pending t.in_flight t.mutex (omega (arith, v.running))
          (omega (arith, v.running)) (omega (arith, v.running)) in
      (
        (λ name. omega (arith, v.each name, none_left name)),
        v.successes,
        v.failures,
        omega (arith, v.all, v.successes, v.failures, empty),
      )
