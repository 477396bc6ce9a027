-- ===== src/Errors/Classify.antt =====
-- pkg/utils/errors.go: `ClassifyError` and what it asks, in the order of the source.
pub mod Messages
use kubectl_mcp.Prelude.{
  String, Bool, true, false, not, ◌&&◌, ◌||◌, Option, none, some, List, [], ◌∷◌, str_eq, string_eq,
  if◌then◌else◌,
}
use kubectl_mcp.Prelude.Int.{ℤ, pos, leb_ℤ, ltb_ℤ}
use kubectl_mcp.Mcp.Message.{contains}
use kubectl_mcp.Errors.{ErrorInfo, Status, OpError, GoError, Class}

-- the cases of the `switch status.Reason`, which compares texts
status_class : String → Option Class
status_class reason =
    if str_eq reason "NotFound"
    then some ("NOT_FOUND", "RESOURCE_NOT_FOUND")
    else if str_eq reason "AlreadyExists"
    then some ("CONFLICT", "RESOURCE_ALREADY_EXISTS")
    else if str_eq reason "Conflict"
    then some ("CONFLICT", "RESOURCE_CONFLICT")
    else if str_eq reason "Forbidden"
    then some ("AUTH_ERROR", "FORBIDDEN")
    else if str_eq reason "Unauthorized"
    then some ("AUTH_ERROR", "UNAUTHORIZED")
    else if str_eq reason "BadRequest"
    then some ("CLIENT_ERROR", "INVALID_REQUEST")
    else if str_eq reason "Invalid"
    then some ("CLIENT_ERROR", "INVALID_RESOURCE")
    else if str_eq reason "Timeout"
    then some ("TIMEOUT", "REQUEST_TIMEOUT")
    else if str_eq reason "ServerTimeout"
    then some ("TIMEOUT", "CONNECTION_TIMEOUT")
    else if str_eq reason "ServiceUnavailable"
    then some ("SERVER_ERROR", "SERVICE_UNAVAIL")
    else if str_eq reason "InternalError"
    then some ("SERVER_ERROR", "INTERNAL_ERROR")
    else none

by_code : ℤ → Option Class → Class
by_code code (some c) = c
by_code code none =
    if leb_ℤ (pos 400) code && ltb_ℤ code (pos 500)
    then ("CLIENT_ERROR", "INVALID_REQUEST")
    else ("SERVER_ERROR", "INTERNAL_ERROR")

unfoldable pub classify_k8s_status_error : Status → Class
unfolding status_class by_code
classify_k8s_status_error s = by_code s.code (status_class s.reason)

net_class : Option Bool → Option Class
net_class none = none
net_class (some true) = some ("TIMEOUT", "CONNECTION_TIMEOUT")
net_class (some false) = some ("NETWORK_ERROR", "CLUSTER_UNREACHABLE")

dns_class : Bool → Option Bool → Option Class
unfolding net_class
dns_class true net = some ("NETWORK_ERROR", "DNS_ERROR")
dns_class false net = net_class net

op_class : Option OpError → Bool → Option Bool → Option Class
unfolding dns_class
op_class none dns net = dns_class dns net
op_class (some o) dns net =
    if str_eq o.op "dial"
    then (if o.refused
        then some ("NETWORK_ERROR", "CONNECTION_REFUSED")
        else some ("NETWORK_ERROR", "CLUSTER_UNREACHABLE"))
    else dns_class dns net

-- the class of a network error; its message is read by no caller
unfoldable pub classify_network_error : GoError → Option Class
unfolding op_class
classify_network_error err = op_class err.op_error err.dns_error err.net_error

is_net_timeout : Option Bool → Bool
is_net_timeout (some true) = true
is_net_timeout _ = false

-- one of the words is in the text
unfoldable pub has_any : List String → String → Bool
has_any [] message = false
has_any (word ∷ words) message = contains message word || has_any words message

unfoldable pub is_timeout : (String → String) → GoError → Bool
unfolding is_net_timeout has_any
is_timeout lower err =
    is_net_timeout err.net_error
    || has_any ("timeout" ∷ "deadline exceeded" ∷ "context deadline exceeded" ∷ [])
        (lower err.message)

unfoldable pub classify_by_error_message : String → Class
unfolding has_any
classify_by_error_message message =
    if has_any ("unauthorized" ∷ "authentication" ∷ "unauthenticated" ∷ []) message
    then ("AUTH_ERROR", "UNAUTHORIZED")
    else if has_any ("forbidden" ∷ "permission denied" ∷ "access denied" ∷ []) message
    then ("AUTH_ERROR", "PERMISSION_DENIED")
    else if has_any ("not found" ∷ "doesn't exist" ∷ "does not exist" ∷ []) message
    then ("NOT_FOUND", "RESOURCE_NOT_FOUND")
    else if has_any ("already exists" ∷ "conflict" ∷ []) message
    then ("CONFLICT", "RESOURCE_ALREADY_EXISTS")
    else if has_any ("connection refused" ∷ "no route to host" ∷ []) message
    then ("NETWORK_ERROR", "CONNECTION_REFUSED")
    else if has_any ("unreachable" ∷ "no such host" ∷ []) message
    then ("NETWORK_ERROR", "CLUSTER_UNREACHABLE")
    else if contains message "kubeconfig"
    then (if has_any ("not found" ∷ "no such file" ∷ []) message
        then ("CLIENT_ERROR", "KUBECONFIG_NOT_FOUND")
        else ("CLIENT_ERROR", "KUBECONFIG_INVALID"))
    else if contains message "context" && has_any ("not found" ∷ "不存在" ∷ []) message
    then ("CLIENT_ERROR", "CONTEXT_NOT_FOUND")
    else if has_any ("invalid" ∷ "无效" ∷ []) message
    then ("CLIENT_ERROR", "INVALID_ARGUMENTS")
    else if has_any ("missing" ∷ "required" ∷ "缺少" ∷ []) message
    then ("CLIENT_ERROR", "MISSING_ARGUMENTS")
    else ("SERVER_ERROR", "INTERNAL_ERROR")

classify_rest : (String → String) → GoError → Option Class → Class
classify_rest lower err (some c) = c
classify_rest lower err none =
    if is_timeout lower err
    then ("TIMEOUT", "REQUEST_TIMEOUT")
    else classify_by_error_message (lower err.message)

classify_status : (String → String) → GoError → Option Status → Class
unfolding classify_rest
classify_status lower err (some s) = classify_k8s_status_error s
classify_status lower err none = classify_rest lower err (classify_network_error err)

classify_info : (String → String) → GoError → Option ErrorInfo → Class
unfolding classify_status
classify_info lower err (some e) = (e.kind, e.code)
classify_info lower err none = classify_status lower err err.status

unfoldable pub classify_error : (String → String) → Option GoError → Class
unfolding classify_info
classify_error lower none = ("", "")
classify_error lower (some err) = classify_info lower err err.info
