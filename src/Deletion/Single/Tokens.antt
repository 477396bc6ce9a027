-- ===== src/Deletion/Single/Tokens.antt =====
-- What the confirmation token decides: only whether it is empty.
use kubectl_mcp.Prelude.{
  String, Bool, true, false, ◌≡◌, ◌≢◌, refl, arith, str_eq, str_eq_iff, string_eq,
}
use kubectl_mcp.Prelude.Int.{pos}
use kubectl_mcp.GoMap.{lookup, insert}
use kubectl_mcp.GoMap.Laws.{lookup-insert}
use kubectl_mcp.Value.{Value}
use kubectl_mcp.Registry.{Args}
use kubectl_mcp.Deletion.{
  DeleteOptions, ApiObject, Env, ToolState, text_of, text_arg, bool_arg, get_int32_arg,
  get_context_and_namespace,
}
use kubectl_mcp.Deletion.Single.{
  DeleteResult, require_token, require_text, target_of, delete_named, delete_pod, delete_deployment,
  delete_service, delete_config_map, delete_secret,
}
use kubectl_mcp.Deletion.Single.Requests.{
  SingleTool, pod, deployment, service, config_map, secret, handler_of,
}

-- the arguments with a token
abbrev pub with_token : String → Args → Args
with_token t args = insert "confirmationToken" (Value.str t) args

lookup-with_token :
    (key t : String) (args : Args)
    → str_eq "confirmationToken" key ≡ false
    → lookup key (with_token t args) ≡ lookup key args
lookup-with_token key t args h = rw (lookup-insert "confirmationToken" key (Value.str t) args, h)

token-with_token : (t : String) (args : Args) → text_arg "confirmationToken" (with_token t args) ≡ t
unfolding text_arg text_of
token-with_token t args =
    rw (lookup-insert "confirmationToken" "confirmationToken" (Value.str t) args)

text-with_token :
    (key t : String) (args : Args)
    → str_eq "confirmationToken" key ≡ false
    → text_arg key (with_token t args) ≡ text_arg key args
unfolding text_arg
text-with_token key t args h = rw (lookup-with_token key t args h)

bool-with_token :
    (key : String) (default : Bool) (t : String) (args : Args)
    → str_eq "confirmationToken" key ≡ false
    → bool_arg key default (with_token t args) ≡ bool_arg key default args
unfolding bool_arg
bool-with_token key default t args h = rw (lookup-with_token key t args h)

module _ {K D C : Type 0} (env : Env K D C) where
  int-with_token :
      (key t : String) (args : Args)
      → str_eq "confirmationToken" key ≡ false
      → get_int32_arg env.int32_of_float (with_token t args) key (pos 30)
        ≡ get_int32_arg env.int32_of_float args key (pos 30)
  unfolding get_int32_arg
  int-with_token key t args h = rw (lookup-with_token key t args h)

  not_empty : {t : String} → t ≢ "" → str_eq t "" ≡ false
  not_empty {t} h = ground (arith, str_eq_iff t "")

  delete_named-token :
      (t u : String) (args : Args) (kind : String) (options : DeleteOptions)
      (result : String → String → ApiObject → DeleteResult) (s : ToolState K D C)
      → t ≢ ""
      → u ≢ ""
      → delete_named env (with_token t args) kind options result s
        ≡ delete_named env (with_token u args) kind options result s
  unfolding delete_named require_token require_text target_of get_context_and_namespace
  delete_named-token t u args kind options result s h k = rw (
    token-with_token t args,
    token-with_token u args,
    not_empty h,
    not_empty k,
    text-with_token "name" t args refl,
    text-with_token "name" u args refl,
    text-with_token "context" t args refl,
    text-with_token "context" u args refl,
    text-with_token "namespace" t args refl,
    text-with_token "namespace" u args refl,
  )

  -- Any two tokens that are not empty have the same effect and the same result, in every state, with
  -- each of the five tools that delete one object of a namespace: no token is compared with those that the preview gives out.
  pub single-token :
      (tool : SingleTool) (t u : String) (args : Args) (s : ToolState K D C)
      → t ≢ ""
      → u ≢ ""
      → handler_of tool env (with_token t args) s ≡ handler_of tool env (with_token u args) s
  unfolding delete_pod delete_deployment delete_service delete_config_map delete_secret
  single-token pod t u args s h k =
      rw
        (
          bool-with_token "force" false t args refl,
          bool-with_token "force" false u args refl,
          int-with_token "gracePeriod" t args refl,
          int-with_token "gracePeriod" u args refl,
        )
        (delete_named-token t u args _ _ _ s h k)
  single-token deployment t u args s h k =
      rw (bool-with_token "cascade" true t args refl, bool-with_token "cascade" true u args refl)
        (delete_named-token t u args _ _ _ s h k)
  single-token service t u args s h k = delete_named-token t u args _ _ _ s h k
  single-token config_map t u args s h k = delete_named-token t u args _ _ _ s h k
  single-token secret t u args s h k = delete_named-token t u args _ _ _ s h k
