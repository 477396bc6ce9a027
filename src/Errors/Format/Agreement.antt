-- ===== src/Errors/Format/Agreement.antt =====
-- What `FormatError`, `FormatK8SError` and `WrapError` make of a class, and the tests of a type.
use kubectl_mcp.Prelude.{
  ℕ, ◌+◌, String, Bool, true, false, Option, none, some, ◌≡◌, refl, sym, arith, str_eq, str_eq_iff,
}
use kubectl_mcp.Errors.{ErrorInfo, GoError, Class}
use kubectl_mcp.Errors.Classify.{classify_error}
use kubectl_mcp.Errors.Format.{
  format_new, format_info, format_error, prepend_details, map_info, format_k8s_error, wrap_error,
  resource_text, is_of_type, is_not_found_error, is_conflict_error, is_auth_error, is_timeout_error,
  is_network_error, is_client_error, is_server_error,
}
use kubectl_mcp.Errors.Classify.Messages.{is_known, classify_error-info, classify_error-known}

-- the class of an answer
unfoldable pub class_of : Option ErrorInfo → Class
class_of none = ("", "")
class_of (some e) = (e.kind, e.code)

class_of-prepend :
    (text : String) (o : Option ErrorInfo)
    → class_of (map_info (prepend_details text) o) ≡ class_of o
unfolding class_of map_info prepend_details
class_of-prepend text none = refl
class_of-prepend text (some e) = ground arith

class_of-format_info :
    (lower : String → String) (err : GoError) (o : Option ErrorInfo)
    → err.info ≡ o
    → class_of (some (format_info lower err o)) ≡ classify_error lower (some err)
unfolding class_of format_info format_new
class_of-format_info lower err none no_info = refl
class_of-format_info lower err (some e) info = sym (classify_error-info lower err e info)

pub class_of-format_error :
    (lower : String → String) (err : GoError)
    → class_of (format_error lower (some err)) ≡ classify_error lower (some err)
unfolding format_error
class_of-format_error lower err = class_of-format_info lower err err.info refl

-- `FormatError`, `FormatK8SError` and `WrapError` give every error the type and the code that
-- `ClassifyError` does, whatever the context and the resource are.
pub formats-classify :
    (lower : String → String) (err : GoError) (kind name text : String)
    → (class_of (format_error lower (some err)) ≡ classify_error lower (some err))
      × ((class_of (format_k8s_error lower (some err) kind name) ≡ classify_error lower (some err))
          × (class_of (wrap_error lower (some err) text) ≡ classify_error lower (some err)))
unfolding format_k8s_error wrap_error
formats-classify lower err kind name text = ground (
  arith,
  class_of-format_error lower err,
  class_of-prepend text (format_error lower (some err)),
  class_of-prepend (resource_text kind name) (format_error lower (some err)),
)

-- how many of the seven tests an error passes
as_number : Bool → ℕ
as_number true = 1
as_number false = 0

unfoldable pub types_of : (String → String) → Option GoError → ℕ
unfolding as_number
types_of lower err =
    as_number (is_not_found_error lower err)
    + (as_number (is_conflict_error lower err)
        + (as_number (is_auth_error lower err)
            + (as_number (is_timeout_error lower err)
                + (as_number (is_network_error lower err)
                    + (as_number (is_client_error lower err)
                        + as_number (is_server_error lower err))))))

tests_of : String → ℕ
unfolding as_number
tests_of kind =
    as_number (str_eq kind "NOT_FOUND")
    + (as_number (str_eq kind "CONFLICT")
        + (as_number (str_eq kind "AUTH_ERROR")
            + (as_number (str_eq kind "TIMEOUT")
                + (as_number (str_eq kind "NETWORK_ERROR")
                    + (as_number (str_eq kind "CLIENT_ERROR")
                        + as_number (str_eq kind "SERVER_ERROR"))))))

tests_of-one : (k kind : String) → tests_of k ≡ 1 → str_eq kind k ≡ true → tests_of kind ≡ 1
tests_of-one k kind one same = rw ((str_eq_iff kind k).0 same) one

not_found_once : tests_of "NOT_FOUND" ≡ 1
unfolding tests_of
not_found_once = refl

conflict_once : tests_of "CONFLICT" ≡ 1
unfolding tests_of
conflict_once = refl

auth_error_once : tests_of "AUTH_ERROR" ≡ 1
unfolding tests_of
auth_error_once = refl

timeout_once : tests_of "TIMEOUT" ≡ 1
unfolding tests_of
timeout_once = refl

network_error_once : tests_of "NETWORK_ERROR" ≡ 1
unfolding tests_of
network_error_once = refl

client_error_once : tests_of "CLIENT_ERROR" ≡ 1
unfolding tests_of
client_error_once = refl

server_error_once : tests_of "SERVER_ERROR" ≡ 1
unfolding tests_of
server_error_once = refl

tests_of-known : (c : Class) → is_known c ≡ true → tests_of c.0 ≡ 1
unfolding is_known
tests_of-known c known = ground (
  arith,
  tests_of-one "NOT_FOUND" c.0 not_found_once,
  tests_of-one "CONFLICT" c.0 conflict_once,
  tests_of-one "AUTH_ERROR" c.0 auth_error_once,
  tests_of-one "TIMEOUT" c.0 timeout_once,
  tests_of-one "NETWORK_ERROR" c.0 network_error_once,
  tests_of-one "CLIENT_ERROR" c.0 client_error_once,
  tests_of-one "SERVER_ERROR" c.0 server_error_once,
)

types_of-known :
    (lower : String → String) (err : GoError)
    → is_known (classify_error lower (some err)) ≡ true
    → types_of lower (some err) ≡ 1
unfolding types_of is_of_type tests_of
types_of-known lower err known = tests_of-known (classify_error lower (some err)) known

-- An error that holds no `ErrorInfo` passes exactly one of the seven tests of a type.
pub types_of-one :
    (lower : String → String) (err : GoError) → err.info ≡ none → types_of lower (some err) ≡ 1
types_of-one lower err no_info = types_of-known lower err (classify_error-known lower err no_info)
