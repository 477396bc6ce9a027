-- ===== src/Errors/Classify/Messages.antt =====
-- The classes that `ClassifyError` gives, and what the words of a message decide.
use mathlib.Core.Path.{subst}
use kubectl_mcp.Prelude.{
  ◌⊎◌, String, Bool, true, false, ◌&&◌, ◌||◌, Option, none, some, is_some, ◌≡◌, refl, sym, arith,
  str_eq, string_eq,
}
use kubectl_mcp.GoMap.{lookup}
use kubectl_mcp.Mcp.Message.{contains}
use kubectl_mcp.Errors.Tables.{error_messages, suggestion_map}
use kubectl_mcp.Errors.{ErrorInfo, Status, OpError, GoError, Class}
use kubectl_mcp.Errors.Classify.{
  status_class, by_code, classify_k8s_status_error, net_class, dns_class, op_class,
  classify_network_error, has_any, classify_by_error_message, classify_rest, classify_status,
  classify_info, classify_error,
}

-- A class has one of the seven types, and its code has a message and a suggestion of its own.
unfoldable pub is_known : Class → Bool
is_known (kind, code) =
    (str_eq kind "CLIENT_ERROR"
      || (str_eq kind "SERVER_ERROR"
          || (str_eq kind "NETWORK_ERROR"
              || (str_eq kind "AUTH_ERROR"
                  || (str_eq kind "NOT_FOUND"
                      || (str_eq kind "CONFLICT" || str_eq kind "TIMEOUT"))))))
    && (is_some (lookup code error_messages) && is_some (lookup code suggestion_map))

resource_not_found_known : is_known ("NOT_FOUND", "RESOURCE_NOT_FOUND") ≡ true
unfolding is_known lookup
resource_not_found_known = refl

resource_already_exists_known : is_known ("CONFLICT", "RESOURCE_ALREADY_EXISTS") ≡ true
unfolding is_known lookup
resource_already_exists_known = refl

resource_conflict_known : is_known ("CONFLICT", "RESOURCE_CONFLICT") ≡ true
unfolding is_known lookup
resource_conflict_known = refl

forbidden_known : is_known ("AUTH_ERROR", "FORBIDDEN") ≡ true
unfolding is_known lookup
forbidden_known = refl

unauthorized_known : is_known ("AUTH_ERROR", "UNAUTHORIZED") ≡ true
unfolding is_known lookup
unauthorized_known = refl

permission_denied_known : is_known ("AUTH_ERROR", "PERMISSION_DENIED") ≡ true
unfolding is_known lookup
permission_denied_known = refl

invalid_request_known : is_known ("CLIENT_ERROR", "INVALID_REQUEST") ≡ true
unfolding is_known lookup
invalid_request_known = refl

invalid_resource_known : is_known ("CLIENT_ERROR", "INVALID_RESOURCE") ≡ true
unfolding is_known lookup
invalid_resource_known = refl

request_timeout_known : is_known ("TIMEOUT", "REQUEST_TIMEOUT") ≡ true
unfolding is_known lookup
request_timeout_known = refl

connection_timeout_known : is_known ("TIMEOUT", "CONNECTION_TIMEOUT") ≡ true
unfolding is_known lookup
connection_timeout_known = refl

service_unavail_known : is_known ("SERVER_ERROR", "SERVICE_UNAVAIL") ≡ true
unfolding is_known lookup
service_unavail_known = refl

internal_error_known : is_known ("SERVER_ERROR", "INTERNAL_ERROR") ≡ true
unfolding is_known lookup
internal_error_known = refl

dns_error_known : is_known ("NETWORK_ERROR", "DNS_ERROR") ≡ true
unfolding is_known lookup
dns_error_known = refl

connection_refused_known : is_known ("NETWORK_ERROR", "CONNECTION_REFUSED") ≡ true
unfolding is_known lookup
connection_refused_known = refl

cluster_unreachable_known : is_known ("NETWORK_ERROR", "CLUSTER_UNREACHABLE") ≡ true
unfolding is_known lookup
cluster_unreachable_known = refl

kubeconfig_not_found_known : is_known ("CLIENT_ERROR", "KUBECONFIG_NOT_FOUND") ≡ true
unfolding is_known lookup
kubeconfig_not_found_known = refl

kubeconfig_invalid_known : is_known ("CLIENT_ERROR", "KUBECONFIG_INVALID") ≡ true
unfolding is_known lookup
kubeconfig_invalid_known = refl

context_not_found_known : is_known ("CLIENT_ERROR", "CONTEXT_NOT_FOUND") ≡ true
unfolding is_known lookup
context_not_found_known = refl

invalid_arguments_known : is_known ("CLIENT_ERROR", "INVALID_ARGUMENTS") ≡ true
unfolding is_known lookup
invalid_arguments_known = refl

missing_arguments_known : is_known ("CLIENT_ERROR", "MISSING_ARGUMENTS") ≡ true
unfolding is_known lookup
missing_arguments_known = refl

classify_by_error_message-known :
    (message : String) → is_known (classify_by_error_message message) ≡ true
unfolding classify_by_error_message
classify_by_error_message-known message = ground (
  arith, resource_not_found_known, resource_already_exists_known, unauthorized_known,
  permission_denied_known, connection_refused_known, cluster_unreachable_known,
  kubeconfig_not_found_known, kubeconfig_invalid_known, context_not_found_known,
  invalid_arguments_known, missing_arguments_known, internal_error_known,
)

classify_k8s_status_error-known : (s : Status) → is_known (classify_k8s_status_error s) ≡ true
unfolding classify_k8s_status_error by_code status_class
classify_k8s_status_error-known s = ground (
  arith, resource_not_found_known, resource_already_exists_known, resource_conflict_known,
  forbidden_known, unauthorized_known, invalid_request_known, invalid_resource_known,
  request_timeout_known, connection_timeout_known, service_unavail_known, internal_error_known,
)

op_class-known :
    (lower : String → String) (err : GoError) (o : Option OpError) (dns : Bool) (net : Option Bool)
    → is_known (classify_rest lower err (op_class o dns net)) ≡ true
unfolding classify_rest op_class dns_class net_class
op_class-known lower err o dns net = ground (
  arith,
  request_timeout_known,
  connection_refused_known,
  cluster_unreachable_known,
  dns_error_known,
  connection_timeout_known,
  classify_by_error_message-known (lower err.message),
)

classify_status-known :
    (lower : String → String) (err : GoError) (o : Option Status)
    → is_known (classify_status lower err o) ≡ true
unfolding classify_status classify_network_error
classify_status-known lower err none =
    op_class-known lower err err.op_error err.dns_error err.net_error
classify_status-known lower err (some s) = classify_k8s_status_error-known s

-- An error that holds no `ErrorInfo` is classified by one of the seven types, with a code that has
-- a message and a suggestion of its own.
pub classify_error-known :
    (lower : String → String) (err : GoError)
    → err.info ≡ none
    → is_known (classify_error lower (some err)) ≡ true
unfolding classify_error classify_info
classify_error-known lower err no_info =
    subst (λ o. is_known (classify_info lower err o) ≡ true) (sym no_info)
      (classify_status-known lower err err.status)

-- the codes of a kubeconfig and of a context that are not found
unfoldable pub is_config_missing : Class → Bool
is_config_missing c = str_eq c.1 "CONTEXT_NOT_FOUND" || str_eq c.1 "KUBECONFIG_NOT_FOUND"

unauthorized_not_missing : is_config_missing ("AUTH_ERROR", "UNAUTHORIZED") ≡ false
unfolding is_config_missing
unauthorized_not_missing = refl

permission_denied_not_missing : is_config_missing ("AUTH_ERROR", "PERMISSION_DENIED") ≡ false
unfolding is_config_missing
permission_denied_not_missing = refl

resource_not_found_not_missing : is_config_missing ("NOT_FOUND", "RESOURCE_NOT_FOUND") ≡ false
unfolding is_config_missing
resource_not_found_not_missing = refl

resource_already_exists_not_missing :
    is_config_missing ("CONFLICT", "RESOURCE_ALREADY_EXISTS") ≡ false
unfolding is_config_missing
resource_already_exists_not_missing = refl

connection_refused_not_missing : is_config_missing ("NETWORK_ERROR", "CONNECTION_REFUSED") ≡ false
unfolding is_config_missing
connection_refused_not_missing = refl

cluster_unreachable_not_missing : is_config_missing ("NETWORK_ERROR", "CLUSTER_UNREACHABLE") ≡ false
unfolding is_config_missing
cluster_unreachable_not_missing = refl

kubeconfig_invalid_not_missing : is_config_missing ("CLIENT_ERROR", "KUBECONFIG_INVALID") ≡ false
unfolding is_config_missing
kubeconfig_invalid_not_missing = refl

invalid_arguments_not_missing : is_config_missing ("CLIENT_ERROR", "INVALID_ARGUMENTS") ≡ false
unfolding is_config_missing
invalid_arguments_not_missing = refl

missing_arguments_not_missing : is_config_missing ("CLIENT_ERROR", "MISSING_ARGUMENTS") ≡ false
unfolding is_config_missing
missing_arguments_not_missing = refl

internal_error_not_missing : is_config_missing ("SERVER_ERROR", "INTERNAL_ERROR") ≡ false
unfolding is_config_missing
internal_error_not_missing = refl

-- A message that is classified as that of a kubeconfig or of a context that is not found does not
-- hold the words "not found": it holds "不存在" or "no such file".
pub classify_by_error_message-config_missing :
    (message : String)
    → is_config_missing (classify_by_error_message message) ≡ true
    → (contains message "not found" ≡ false)
      × ((contains message "不存在" ≡ true) ⊎ (contains message "no such file" ≡ true))
unfolding classify_by_error_message has_any
classify_by_error_message-config_missing message h = ground (
  arith, unauthorized_not_missing, permission_denied_not_missing, resource_not_found_not_missing,
  resource_already_exists_not_missing, connection_refused_not_missing,
  cluster_unreachable_not_missing, kubeconfig_invalid_not_missing, invalid_arguments_not_missing,
  missing_arguments_not_missing, internal_error_not_missing,
)

pub classify_error-info :
    (lower : String → String) (err : GoError) (e : ErrorInfo)
    → err.info ≡ some e
    → classify_error lower (some err) ≡ (e.kind, e.code)
unfolding classify_error classify_info
classify_error-info lower err e info = λ i. classify_info lower err (info i)
