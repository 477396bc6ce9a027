-- ===== src/Errors/Format.antt =====
-- pkg/utils/errors.go: `FormatError`, `FormatK8SError`, the wrapping and the tests of a type.
pub mod Agreement
use Prim.Native.String.{◌++◌}
use kubectl_mcp.Prelude.{
  String, Bool, true, false, not, ◌&&◌, ◌||◌, Option, none, some, List, [], ◌∷◌, str_eq, string_eq,
  if◌then◌else◌,
}
use kubectl_mcp.GoMap.{lookup}
use kubectl_mcp.Errors.Tables.{error_messages, suggestion_map}
use kubectl_mcp.Errors.{ErrorInfo, GoError, Class}
use kubectl_mcp.Errors.Classify.{classify_error}

or_text : String → Option String → String
or_text default none = default
or_text default (some s) = s

-- the default is the message of the error, which no caller leaves nil
unfoldable pub get_error_message : GoError → String → String
unfolding or_text
get_error_message err code = or_text err.message (lookup code error_messages)

unfoldable pub get_suggestion : String → String
unfolding or_text
get_suggestion code = or_text "请检查错误详情并重试，如问题持续请联系管理员" (lookup code suggestion_map)

format_new : (String → String) → GoError → Class → ErrorInfo
format_new lower err (kind, code) = record {
  kind = kind;
  code = code;
  message = get_error_message err code;
  details = err.message;
  suggestion = get_suggestion code;
}

format_info : (String → String) → GoError → Option ErrorInfo → ErrorInfo
unfolding format_new
format_info lower err (some e) = e
format_info lower err none = format_new lower err (classify_error lower (some err))

unfoldable pub format_error : (String → String) → Option GoError → Option ErrorInfo
unfolding format_info
format_error lower none = none
format_error lower (some err) = some (format_info lower err err.info)

-- the text before the details, with "; " between them
unfoldable pub prepend_details : String → ErrorInfo → ErrorInfo
prepend_details text e =
    if str_eq e.details ""
    then record e { details = text }
    else record e { details = text ++ "; " ++ e.details }

resource_text : String → String → String
resource_text kind name =
    if not (str_eq kind "") && not (str_eq name "")
    then "资源: " ++ kind ++ "/" ++ name
    else if not (str_eq kind "")
    then "资源类型: " ++ kind
    else "资源: " ++ name

map_info : (ErrorInfo → ErrorInfo) → Option ErrorInfo → Option ErrorInfo
map_info f none = none
map_info f (some e) = some (f e)

unfoldable pub format_k8s_error :
    (String → String) → Option GoError → String → String → Option ErrorInfo
unfolding resource_text map_info
format_k8s_error lower err kind name =
    if not (str_eq kind "") || not (str_eq name "")
    then map_info (prepend_details (resource_text kind name)) (format_error lower err)
    else format_error lower err

unfoldable pub wrap_error : (String → String) → Option GoError → String → Option ErrorInfo
unfolding map_info
wrap_error lower err text =
    if str_eq text ""
    then format_error lower err
    else map_info (prepend_details text) (format_error lower err)

details_of : Option GoError → String
details_of none = ""
details_of (some err) = err.message

unfoldable pub wrap_error_with_code : Option GoError → String → String → String → ErrorInfo
unfolding details_of
wrap_error_with_code err kind code message = record {
  kind = kind;
  code = code;
  message = message;
  details = details_of err;
  suggestion = get_suggestion code;
}

-- What `IsNotFoundError` and its siblings share. A nil error is of no type, and the type of an
-- `ErrorInfo` in the chain is what `ClassifyError` gives too.
unfoldable pub is_of_type : String → (String → String) → Option GoError → Bool
is_of_type kind lower none = false
is_of_type kind lower (some err) = str_eq (classify_error lower (some err)).0 kind

abbrev pub is_not_found_error : (String → String) → Option GoError → Bool
is_not_found_error = is_of_type "NOT_FOUND"

abbrev pub is_conflict_error : (String → String) → Option GoError → Bool
is_conflict_error = is_of_type "CONFLICT"

abbrev pub is_auth_error : (String → String) → Option GoError → Bool
is_auth_error = is_of_type "AUTH_ERROR"

abbrev pub is_timeout_error : (String → String) → Option GoError → Bool
is_timeout_error = is_of_type "TIMEOUT"

abbrev pub is_network_error : (String → String) → Option GoError → Bool
is_network_error = is_of_type "NETWORK_ERROR"

abbrev pub is_client_error : (String → String) → Option GoError → Bool
is_client_error = is_of_type "CLIENT_ERROR"

abbrev pub is_server_error : (String → String) → Option GoError → Bool
is_server_error = is_of_type "SERVER_ERROR"
