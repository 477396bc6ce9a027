-- ===== src/Deletion/Batch.antt =====
-- internal/tools/delete_batch.go: `DeleteResources`. It starts a goroutine for each name, which makes
-- its deletion, locks the mutex, writes what came of the deletion into the result, unlocks the mutex
-- and counts itself out of the WaitGroup. `Step` is one of these steps of any goroutine. A call of
-- the API that has no answer is a step that is never made.
pub mod Accounting
pub mod Progress
pub mod Start
use kubectl_mcp.Prelude.{
  ℕ, ◌+◌, ◌-◌, String, Bool, true, false, ◌&&◌, ◌||◌, Option, none, some, List, [], ◌∷◌, ◌++◌, ◌⊎◌,
  inl, inr, ◌≡◌, length, str_eq, if◌then◌else◌, ◌==◌,
}
use kubectl_mcp.Registry.{Args}
use kubectl_mcp.Deletion.{
  no_options, ApiCalls, delete_call, Env, ToolState, Failure, no_token, parameter_required,
  no_names, delete_failed, list_failed, unsupported_kind, Action, ◌>>=◌, ◌>>◌, done, abort,
  text_arg, texts_arg, get_context_and_namespace, get_client_set, api_list,
}
use kubectl_mcp.Deletion.Single.{target_of, require_token, require_text}

pub data BatchMessage : Type 0 where
  no_message : BatchMessage
  nothing_found : BatchMessage
  finished : ℕ → ℕ → BatchMessage

pub record BatchDeleteResult : Type 0 where
  pub kind : String
  pub namespace : String
  pub total_count : ℕ
  pub success_count : ℕ
  pub failure_count : ℕ
  pub success_list : List String
  pub failure_list : List (String × Failure)
  pub label_selector : String
  pub message : BatchMessage

-- what `DeleteResources` comes to before it deletes: an end, or the names to delete
pub data Batch (K : Type 0) : Type 0 where
  ended : BatchDeleteResult → Batch K
  deletes : K → String → String → List String → BatchDeleteResult → Batch K

-- the cases of the `switch kind`
pub is_supported : String → Bool
is_supported kind =
    str_eq kind "Pod"
    || (str_eq kind "Deployment"
        || (str_eq kind "StatefulSet"
            || (str_eq kind "DaemonSet"
                || (str_eq kind "Service" || (str_eq kind "ConfigMap" || str_eq kind "Secret")))))

failure_of : String → String → String → Option String → Option Failure
failure_of kind namespace name none = none
failure_of kind namespace name (some e) = some (delete_failed kind namespace name e)

-- the calls with that of the deletion, if the kind has one, and the error if there is one
unfoldable pub delete_resource_by_kind :
    {K D C : Type 0}
    → Env K D C
    → K
    → String
    → String
    → String
    → ApiCalls K
    → ApiCalls K × Option Failure
unfolding is_supported failure_of
delete_resource_by_kind env k kind namespace name calls =
    if is_supported kind
    then (
      (k, delete_call kind namespace name no_options) ∷ calls,
      failure_of kind namespace name (env.api.delete calls k kind namespace name no_options),
    )
    else (calls, some (unsupported_kind kind))

-- what a goroutine writes of its name
unfoldable pub record_outcome : String → Option Failure → BatchDeleteResult → BatchDeleteResult
record_outcome name none r = record r {
  success_count = r.success_count + 1;
  success_list = r.success_list ++ name ∷ [];
}
record_outcome name (some e) r = record r {
  failure_count = r.failure_count + 1;
  failure_list = r.failure_list ++ (name, e) ∷ [];
}

-- `result.Message` after `wg.Wait()`
unfoldable pub finish : BatchDeleteResult → BatchDeleteResult
finish r = record r { message = finished r.success_count r.failure_count }

-- who holds the mutex: nobody, a goroutine with what it is to write, or one that has written it
pub data Mutex : Type 0 where
  unlocked : Mutex
  locked : String → Option Failure → Mutex
  has_written : Mutex

pub record BatchState (K : Type 0) : Type 0 where
  -- the names whose goroutines have no answer of the API
  pub pending : List String
  -- the names with their answers, which wait for the mutex
  pub in_flight : List (String × Option Failure)
  pub mutex : Mutex
  -- how many goroutines have unlocked the mutex and not called `wg.Done()`
  pub leaving : ℕ
  -- the counter of the WaitGroup
  pub wait_group : ℕ
  pub result : BatchDeleteResult
  pub calls : ApiCalls K

empty_result : String → String → String → BatchDeleteResult
empty_result kind namespace selector = record {
  kind = kind;
  namespace = namespace;
  total_count = 0;
  success_count = 0;
  failure_count = 0;
  success_list = [];
  failure_list = [];
  label_selector = selector;
  message = no_message;
}

start_with : {K : Type 0} → K → BatchDeleteResult → List String → Batch K
start_with k r [] = ended (record r { message = nothing_found })
start_with k r (name ∷ names) =
    deletes k r.kind r.namespace (name ∷ names) (record r { total_count = length (name ∷ names) })

unfoldable pub require_some : {S : Type 0} → List String → String → Action S (Unit {0})
require_some names selector =
    if length names == 0 && str_eq selector "" then abort no_names else done tt

module _ {K D C : Type 0} (env : Env K D C) where
  listed_names : List String × Option String → Action (ToolState K D C) (List String)
  listed_names (names, none) = done names
  listed_names (names, some e) = abort (list_failed e)

  unfoldable pub list_resource_names_by_kind :
      K → String → String → String → Action (ToolState K D C) (List String)
  unfolding is_supported listed_names
  list_resource_names_by_kind k kind namespace selector =
      if is_supported kind
      then api_list env k kind namespace selector >>= listed_names
      else abort (unsupported_kind kind)

  -- the names that are given, or those that the label selector finds
  start_batch : K → BatchDeleteResult → List String → Action (ToolState K D C) (Batch K)
  unfolding start_with
  start_batch k r [] = do
    names ← list_resource_names_by_kind k r.kind r.namespace r.label_selector
    done (start_with k r names)
  start_batch k r (name ∷ names) = done (start_with k r (name ∷ names))

  with_client : String → BatchDeleteResult → List String → Action (ToolState K D C) (Batch K)
  unfolding start_batch
  with_client context_name r names = do k ← get_client_set env context_name; start_batch k r names

  -- `DeleteResources` up to its goroutines
  unfoldable pub delete_resources : Args → Action (ToolState K D C) (Batch K)
  unfolding with_client empty_result
  delete_resources args = do
    require_token args
    target ← target_of env args
    kind ← require_text "kind" args
    require_some (texts_arg "names" args) (text_arg "labelSelector" args)
    with_client target.0 (empty_result kind target.1 (text_arg "labelSelector" args))
        (texts_arg "names" args)

  -- one step of one goroutine of `deleteBatchByNames`
  pub data Step (k : K) (kind namespace : String) : BatchState K → BatchState K → Type 0 where
    asks :
        (s : BatchState K) (before after : List String) (name : String)
        → s.pending ≡ before ++ name ∷ after
        → Step k kind namespace s (record s {
          pending = before ++ after;
          in_flight =
              (name, (delete_resource_by_kind env k kind namespace name s.calls).1) ∷ s.in_flight;
          calls = (delete_resource_by_kind env k kind namespace name s.calls).0;
        })
    locks :
        (s : BatchState K) (before after : List (String × Option Failure)) (name : String)
        (outcome : Option Failure)
        → s.in_flight ≡ before ++ (name, outcome) ∷ after
        → s.mutex ≡ unlocked
        → Step k kind namespace s
            (record s { in_flight = before ++ after; mutex = locked name outcome })
    writes :
        (s : BatchState K) (name : String) (outcome : Option Failure)
        → s.mutex ≡ locked name outcome
        → Step k kind namespace s
            (record s { mutex = has_written; result = record_outcome name outcome s.result })
    unlocks :
        (s : BatchState K)
        → s.mutex ≡ has_written
        → Step k kind namespace s (record s { mutex = unlocked; leaving = s.leaving + 1 })
    leaves :
        (s : BatchState K) (n : ℕ)
        → s.leaving ≡ n + 1
        → Step k kind namespace s (record s { leaving = n; wait_group = s.wait_group - 1 })

  -- a number of steps
  pub data Steps (k : K) (kind namespace : String) (s : BatchState K)
      : ℕ → BatchState K → Type 0 where
    here : Steps k kind namespace s 0 s
    next :
        {n : ℕ} {t u : BatchState K}
        → Steps k kind namespace s n t
        → Step k kind namespace t u
        → Steps k kind namespace s (n + 1) u
