-- ===== src/Deletion.antt =====
-- internal/tools/delete_*.go, with what they use of helpers.go and create_helpers.go. A handler acts on the client
-- manager and on the record of the calls that it makes of the Kubernetes API, the last one first.
-- What the API answers is the record `KubeApi`: it may depend on all calls so far, and so on
-- whatever else happens in the cluster. A failure is a constructor that stands for its message.
pub mod Single
pub mod Batch
pub mod Preview
mod Tests
use kubectl_mcp.Prelude.{
  ℕ, suc, ◌+◌, ◌-◌, ◌%◌, ◌^◌, String, Bool, true, false, Option, none, some, List, [], ◌∷◌, ◌⊎◌,
  inl, inr, ltb, str_eq, string_eq, if◌then◌else◌,
}
use kubectl_mcp.Prelude.Int.{ℤ, pos, negsuc}
use kubectl_mcp.GoMap.{GoMap, lookup}
use kubectl_mcp.Value.{Value, Items, no_items, item, Float64}
use kubectl_mcp.Registry.{Args}
use kubectl_mcp.K8s.{
  ClientGo, K8sClientManager, ManagerError, get_client, get_client_for_context,
  get_default_namespace, get_default_namespace_for_context,
}

-- `metav1.DeleteOptions`, by the fields that the source sets
pub record DeleteOptions : Type 0 where
  pub grace_period_seconds : Option ℤ
  pub orphan : Bool

abbrev pub no_options : DeleteOptions
no_options = record { grace_period_seconds = none; orphan = false }

-- a call of the API by the kind of the resource; a namespace has an empty namespace
pub data ApiCall : Type 0 where
  get_call : String → String → String → ApiCall
  list_call : String → String → String → ApiCall
  delete_call : String → String → String → DeleteOptions → ApiCall

-- the calls with the clientset that each is made through
abbrev pub ApiCalls : Type 0 → Type 0
ApiCalls K = List (K × ApiCall)

-- an object of the API, by what the deletions read of it
pub record ApiObject : Type 0 where
  pub created : ℕ
  pub replicas : Option ℤ
  pub type_name : String
  pub data_count : ℕ

-- The answers of the API to a call, after the calls before it. A list has its items also beside an
-- error, where they are mostly none.
pub record KubeApi (K : Type 0) : Type 0 where
  pub get : ApiCalls K → K → String → String → String → String ⊎ ApiObject
  pub list : ApiCalls K → K → String → String → String → List String × Option String
  pub delete : ApiCalls K → K → String → String → String → DeleteOptions → Option String

-- What a handler runs in. Go leaves open what a float64 out of the range of an int32 becomes.
pub record Env (K D C : Type 0) : Type 0 where
  pub go : ClientGo K D C
  pub api : KubeApi K
  pub now : ℕ
  pub int32_of_float : Float64 → ℤ

pub record ToolState (K D C : Type 0) : Type 0 where
  pub manager : K8sClientManager K D C
  pub calls : ApiCalls K

pub data Failure : Type 0 where
  no_token : Failure
  parameter_required : String → Failure
  system_namespace : String → Failure
  no_names : Failure
  context_client_failed : String → ManagerError → Failure
  client_failed : ManagerError → Failure
  get_failed : String → String → String → String → Failure
  delete_failed : String → String → String → String → Failure
  list_failed : String → Failure
  unsupported_kind : String → Failure

-- a step of a handler
abbrev pub Action : Type 0 → Type 0 → Type 0
Action S A = S → S × (Failure ⊎ A)

abbrev pub and_then : {S A B : Type 0} → (A → Action S B) → S × (Failure ⊎ A) → S × (Failure ⊎ B)
and_then f (s, inl e) = (s, inl e)
and_then f (s, inr a) = f a s

infixl 5 ◌>>=◌ ◌>>◌
abbrev pub ◌>>=◌ : {S A B : Type 0} → Action S A → (A → Action S B) → Action S B
◌>>=◌ m f s = and_then f (m s)

abbrev pub ◌>>◌ : {S B : Type 0} → Action S (Unit {0}) → Action S B → Action S B
m >> k = m >>= λ _. k

abbrev pub done : {S A : Type 0} → A → Action S A
done a s = (s, inr a)

abbrev pub abort : {S A : Type 0} → Failure → Action S A
abort e s = (s, inl e)

-- `v, ok := args[key].(string)`
unfoldable pub text_of : Option Value → Option String
text_of (some (Value.str s)) = some s
text_of _ = none

abbrev or_empty : Option String → String
or_empty none = ""
or_empty (some s) = s

-- a text that is there, or the empty string; the source tells an absent text from an empty one nowhere
unfoldable pub text_arg : String → Args → String
unfolding text_of
text_arg key args = or_empty (text_of (lookup key args))

bool_of : Bool → Option Value → Bool
bool_of default (some (Value.bool b)) = b
bool_of default _ = default

unfoldable pub bool_arg : String → Bool → Args → Bool
unfolding bool_of
bool_arg key default args = bool_of default (lookup key args)

-- `int32(val)` of an int: the low 32 bits, read as a signed number
unfoldable pub wrap_int32 : ℤ → ℤ
wrap_int32 (pos n) = let r = n % 2 ^ 32 in if ltb r (2 ^ 31) then pos r else negsuc (2 ^ 32 - 1 - r)
wrap_int32 (negsuc n) =
    let r = n % 2 ^ 32 in if ltb r (2 ^ 31) then negsuc r else pos (2 ^ 32 - 1 - r)

int32_of : (Float64 → ℤ) → ℤ → Option Value → ℤ
unfolding wrap_int32
int32_of of_float default (some (Value.float64 f)) = of_float f
int32_of of_float default (some (Value.int n)) = wrap_int32 n
int32_of of_float default _ = default

unfoldable pub get_int32_arg : (Float64 → ℤ) → Args → String → ℤ → ℤ
unfolding int32_of
get_int32_arg of_float args key default = int32_of of_float default (lookup key args)

texts_of_items : Items → List String
texts_of_items no_items = []
texts_of_items (item (Value.str s) items) = s ∷ texts_of_items items
texts_of_items (item _ items) = texts_of_items items

texts_of : Option Value → List String
unfolding texts_of_items
texts_of (some (Value.arr items)) = texts_of_items items
texts_of _ = []

-- the texts of a list of values
unfoldable pub texts_arg : String → Args → List String
unfolding texts_of
texts_arg key args = texts_of (lookup key args)

or_no_namespace : ManagerError ⊎ String → String
or_no_namespace (inl e) = ""
or_no_namespace (inr namespace) = namespace

module _ {K D C : Type 0} where
  unfoldable pub get_context_and_namespace : Args → K8sClientManager K D C → String × String
  unfolding or_no_namespace
  get_context_and_namespace args m =
      let context_name = text_arg "context" args in
      let namespace = text_arg "namespace" args in
      (
        context_name,
        if str_eq namespace ""
            then (if str_eq context_name ""
                then or_no_namespace (get_default_namespace m)
                else or_no_namespace (get_default_namespace_for_context context_name m))
            else namespace,
      )

  client_of :
      ToolState K D C
      → (ManagerError → Failure)
      → K8sClientManager K D C × (ManagerError ⊎ K)
      → ToolState K D C × (Failure ⊎ K)
  client_of s failure (m, inl e) = (record s { manager = m }, inl (failure e))
  client_of s failure (m, inr k) = (record s { manager = m }, inr k)

  unfoldable pub get_client_set : Env K D C → String → Action (ToolState K D C) K
  unfolding client_of
  get_client_set env context_name s =
      if str_eq context_name ""
      then client_of s client_failed (get_client env.go env.now s.manager)
      else client_of s (context_client_failed context_name)
          (get_client_for_context env.go env.now context_name s.manager)

  -- the calls of the API
  unfoldable pub api_get :
      Env K D C → K → String → String → String → Action (ToolState K D C) ApiObject
  api_get env k kind namespace name s = elim (env.api.get s.calls k kind namespace name) [
    | inl e ↦ (
      record s { calls = (k, get_call kind namespace name) ∷ s.calls },
      inl (get_failed kind namespace name e),
    )
    | inr o ↦ (record s { calls = (k, get_call kind namespace name) ∷ s.calls }, inr o)
  ]

  unfoldable pub api_list :
      Env K D C
      → K
      → String
      → String
      → String
      → Action (ToolState K D C) (List String × Option String)
  api_list env k kind namespace selector s = (
    record s { calls = (k, list_call kind namespace selector) ∷ s.calls },
    inr (env.api.list s.calls k kind namespace selector),
  )

  unfoldable pub api_delete :
      Env K D C → K → String → String → String → DeleteOptions → Action (ToolState K D C) (Unit {0})
  api_delete env k kind namespace name options s =
      elim (env.api.delete s.calls k kind namespace name options) [
        | some e ↦ (
          record s { calls = (k, delete_call kind namespace name options) ∷ s.calls },
          inl (delete_failed kind namespace name e),
        )
        | none ↦
            (record s { calls = (k, delete_call kind namespace name options) ∷ s.calls }, inr tt)
      ]
