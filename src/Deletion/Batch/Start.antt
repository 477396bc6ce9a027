-- ===== src/Deletion/Batch/Start.antt =====
-- What `DeleteResources` has checked and found when it starts its goroutines, and what its result
-- is when they have ended.
use kubectl_mcp.Prelude.{
  ℕ, ◌+◌, String, Option, none, some, List, [], ◌∷◌, inl, inr, ◌≡◌, ◌≢◌, refl, sym, ◌∙◌, arith,
  length, str_eq, str_eq_iff, Bool-cases, ◌==◌, ◌&&◌,
}
use kubectl_mcp.Registry.{Args}
use kubectl_mcp.Deletion.{
  ApiCalls, Env, ToolState, Failure, text_arg, texts_arg, get_client_set, api_list,
}
use kubectl_mcp.Deletion.Single.{target_of, require_token, require_text}
use kubectl_mcp.Deletion.Single.Requests.{sum-cases, target, get_client_set-calls}
use kubectl_mcp.Deletion.Batch.{
  BatchDeleteResult, deletes, BatchState, Step, asks, locks, writes, unlocks, leaves, Steps, here,
  next, record_outcome, start_with, start_batch, with_client, empty_result, require_some,
  delete_resources, list_resource_names_by_kind, listed_names, is_supported, finish,
}
use kubectl_mcp.Deletion.Batch.Accounting.{
  occurs, occurs_in, start_state, IsFresh, finished-accounted,
}

-- what holds of the names and the result that the goroutines start with
pub record IsStarted (names : List String) (r : BatchDeleteResult) : Type 0 where
  pub fresh : IsFresh r
  pub total : r.total_count ≡ length names

module _ {K : Type 0} where
  start_with-deletes :
      (k k' : K) (r r' : BatchDeleteResult) (kind namespace : String) (found names : List String)
      → IsFresh r
      → start_with k r found ≡ deletes k' kind namespace names r'
      → IsStarted names r'
        × (k ≡ k')
        × (r.kind ≡ kind)
        × (r.namespace ≡ namespace)
        × (found ≡ names)
  unfolding start_with
  start_with-deletes k k' r r' kind namespace [] names f e = ground arith
  start_with-deletes k k' r r' kind namespace (name ∷ found) names f e =
      let a : name ∷ found ≡ names = ground arith in
      let b : record r { total_count = length (name ∷ found) } ≡ r' = ground arith in
      (
        rw (← a, ← b)
            (record {
              fresh = record {
                no_success = f.no_success;
                no_failure = f.no_failure;
                success_zero = f.success_zero;
                failure_zero = f.failure_zero;
              };
              total = refl;
            }),
        ground arith,
        ground arith,
        ground arith,
        a,
      )

empty-IsFresh : (kind namespace selector : String) → IsFresh (empty_result kind namespace selector)
unfolding empty_result
empty-IsFresh kind namespace selector = record {
  no_success = refl;
  no_failure = refl;
  success_zero = refl;
  failure_zero = refl;
}

module _ {K D C : Type 0} (env : Env K D C) where
  -- the names are those that are given or, where none is, those that the API lists
  pub data AreNamed (k : K) (kind namespace selector : String) (calls : ApiCalls K)
      : List String → List String → Type 0 where
    by_names :
        (name : String) (names : List String)
        → AreNamed k kind namespace selector calls (name ∷ names) (name ∷ names)
    by_selector :
        AreNamed k kind namespace selector calls [] (env.api.list calls k kind namespace selector).0

  listed-inr :
      (found : List String × Option String) (names : List String) (s : ToolState K D C)
      → (listed_names env found s).1 ≡ inr names
      → found.0 ≡ names
  unfolding listed_names
  listed-inr (found, none) names s e = ground arith
  listed-inr (found, some x) names s e = ground arith

  list_names-inr :
      (k : K) (kind namespace selector : String) (s : ToolState K D C) (found : List String)
      → (list_resource_names_by_kind env k kind namespace selector s).1 ≡ inr found
      → (env.api.list s.calls k kind namespace selector).0 ≡ found
  unfolding list_resource_names_by_kind api_list
  list_names-inr k kind namespace selector s found e = elim (Bool-cases (is_supported kind)) [
    | inl on ↦ listed-inr (env.api.list s.calls k kind namespace selector) found _ (rw on at e)
    | inr off ↦ absurd (ground (arith, off))
  ]

  start_batch-deletes :
      (k k' : K) (r r' : BatchDeleteResult) (kind namespace : String) (given names : List String)
      (s s' : ToolState K D C)
      → IsFresh r
      → start_batch env k r given s ≡ (s', inr (deletes k' kind namespace names r'))
      → IsStarted names r'
        × (k ≡ k')
        × (r.kind ≡ kind)
        × (r.namespace ≡ namespace)
        × AreNamed k r.kind r.namespace r.label_selector s.calls given names
  unfolding start_batch
  start_batch-deletes k k' r r' kind namespace (name ∷ given) names s s' f e =
      let (started, a, b, c, d) =
        start_with-deletes k k' r r' kind namespace (name ∷ given) names f (ground arith) in
      (started, a, b, c, rw (← d) (by_names name given))
  start_batch-deletes k k' r r' kind namespace [] names s s' f e =
      elim (sum-cases (list_resource_names_by_kind env k r.kind r.namespace r.label_selector s).1) [
        | inl (x, q) ↦ ground arith
        | inr (found, q) ↦
            let (started, a, b, c, d) =
              start_with-deletes k k' r r' kind namespace found names f (ground arith) in
            (
              started,
              a,
              b,
              c,
              rw (← d, ← list_names-inr k r.kind r.namespace r.label_selector s found q)
                  by_selector,
            )
      ]

  -- what the goroutines are started with
  pub record IsChosen (args : Args) (s : ToolState K D C) (k : K) (kind namespace : String)
      (names : List String) : Type 0 where
    pub client : (get_client_set env (target env args s).0 s).1 ≡ inr k
    pub of_kind : text_arg "kind" args ≡ kind
    pub in_namespace : (target env args s).1 ≡ namespace
    pub named :
        AreNamed k kind namespace
          (text_arg "labelSelector" args)
          s.calls
          (texts_arg "names" args)
          names

  with_client-deletes :
      (context_name : String) (k : K) (r r' : BatchDeleteResult) (kind namespace : String)
      (given names : List String) (s s' : ToolState K D C)
      → IsFresh r
      → with_client env context_name r given s ≡ (s', inr (deletes k kind namespace names r'))
      → IsStarted names r'
        × ((get_client_set env context_name s).1 ≡ inr k)
        × (r.kind ≡ kind)
        × (r.namespace ≡ namespace)
        × AreNamed k r.kind r.namespace r.label_selector s.calls given names
  unfolding with_client
  with_client-deletes context_name k r r' kind namespace given names s s' f e =
      elim (sum-cases (get_client_set env context_name s).1) [
        | inl (x, q) ↦ ground arith
        | inr (k', q) ↦
            let (started, a, b, c, d) =
              start_batch-deletes k' k r r' kind namespace given names
                (get_client_set env context_name s).0 s' f (ground arith) in
            (
              started,
              rw (← a) q,
              b,
              c,
              rw (← a) (rw (get_client_set-calls env context_name s) at d),
            )
      ]

  delete_resources-deletes :
      (args : Args) (k : K) (kind namespace : String) (names : List String) (r : BatchDeleteResult)
      (s s' : ToolState K D C)
      → delete_resources env args s ≡ (s', inr (deletes k kind namespace names r))
      → (text_arg "confirmationToken" args ≢ "")
        × IsStarted names r
        × IsChosen args s k kind namespace names
  unfolding delete_resources require_token require_text require_some target_of target empty_result
  delete_resources-deletes args k kind namespace names r s s' e =
      elim (Bool-cases (str_eq (text_arg "confirmationToken" args) "")) [
        | inl t ↦ ground arith
        | inr token ↦ elim (Bool-cases (str_eq (text_arg "kind" args) "")) [
          | inl t ↦ ground arith
          | inr named ↦
              elim (Bool-cases (
                length (texts_arg "names" args) == 0
                && str_eq (text_arg "labelSelector" args) "")) [
                  | inl t ↦ ground arith
                  | inr some_names ↦
                      let (started, client, a, b, c) =
                        with_client-deletes _ k _ r kind namespace _ names _ s'
                          (empty-IsFresh _ _ _) (rw (token, named, some_names) at e) in
                      (
                        ground (arith, str_eq_iff (text_arg "confirmationToken" args) ""),
                        started,
                        record {
                          client = client;
                          of_kind = a;
                          in_namespace = b;
                          named = rw (← a, ← b) c;
                        },
                      )
                ]
        ]
      ]

  record_outcome-total :
      (name : String) (outcome : Option Failure) (r : BatchDeleteResult)
      → (record_outcome name outcome r).total_count ≡ r.total_count
  unfolding record_outcome
  record_outcome-total name none r = refl
  record_outcome-total name (some e) r = refl

  Step-total :
      {k : K} {kind namespace : String} {s t : BatchState K}
      → Step env k kind namespace s t
      → t.result.total_count ≡ s.result.total_count
  Step-total (asks s before after name e) = refl
  Step-total (locks s before after name outcome e free) = refl
  Step-total (writes s name outcome e) = record_outcome-total name outcome s.result
  Step-total (unlocks s e) = refl
  Step-total (leaves s n e) = refl

  Steps-total :
      {k : K} {kind namespace : String} {s t : BatchState K} {n : ℕ}
      → Steps env k kind namespace s n t
      → t.result.total_count ≡ s.result.total_count
  Steps-total here = refl
  Steps-total (next r st) = Step-total st ∙ Steps-total r

  -- A batch that is started has a confirmation token that is not empty, and the client of the context,
  -- the kind and the namespace of its arguments; its names are those of the arguments or, where there
  -- is none, those that the API lists for the label selector. When `wg.Wait()` returns, in whatever order
  -- the goroutines ran, each of these names stands in the lists of successes and failures of the result
  -- together exactly as often as among the names, the counters are the lengths of these lists, and
  -- their sum is the total that the result names.
  pub delete_resources-accounted :
      {n : ℕ} (args : Args) (k : K) (kind namespace : String) (names : List String)
      (r : BatchDeleteResult) (s s' : ToolState K D C) (t : BatchState K)
      → delete_resources env args s ≡ (s', inr (deletes k kind namespace names r))
      → Steps env k kind namespace (start_state names r s'.calls) n t
      → t.wait_group ≡ 0
      → (text_arg "confirmationToken" args ≢ "")
        × IsChosen args s k kind namespace names
        × ((name : String)
            → occurs name (finish t.result).success_list
                + occurs_in name (finish t.result).failure_list
              ≡ occurs name names)
        × ((finish t.result).success_count ≡ length (finish t.result).success_list)
        × ((finish t.result).failure_count ≡ length (finish t.result).failure_list)
        × ((finish t.result).success_count + (finish t.result).failure_count
            ≡ (finish t.result).total_count)
  unfolding finish
  delete_resources-accounted args k kind namespace names r s s' t e steps returns =
      let (token, started, chosen) =
        delete_resources-deletes args k kind namespace names r s s' e in
      let (each, successes, failures, sum) =
        finished-accounted env names r s'.calls started.fresh steps returns in
      (
        token,
        chosen,
        each,
        successes,
        failures,
        sum ∙ (sym started.total ∙ sym (Steps-total steps)),
      )
