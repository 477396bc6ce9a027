-- ===== src/Mcp/Request.antt =====
-- `GetToolName`, `isValidToolName`, `IsVerbosityValid`, `ValidateRequest` and
-- `injectRequestOptions`.
pub mod Verdict
use Prim.Native.String.{◌++◌}
use Prim.Native.Char.{Char, code}
use kubectl_mcp.Prelude.{
  ℕ, String, Bool, true, false, not, ◌&&◌, ◌||◌, Option, none, some, List, [], ◌∷◌, leb, ◌==◌,
  str_eq, string_eq, if◌then◌else◌,
}
use kubectl_mcp.Prelude.Int.{pos, ltb_ℤ}
use kubectl_mcp.GoMap.{insert}
use kubectl_mcp.Value.{Value}
use kubectl_mcp.Registry.{ToolRegistry, Args, has_tool}
use kubectl_mcp.Paging.{PaginationRequest, max_page_size, normalize_pagination}
use kubectl_mcp.K8s.{ContextInfo}
use kubectl_mcp.Mcp.Chars.{all_chars}
use kubectl_mcp.Mcp.{ToolCallRequest, ValidationError}

unfoldable pub get_tool_name : ToolCallRequest → String
get_tool_name req = if str_eq req.tool "" then req.name else req.tool

between : ℕ → ℕ → ℕ → Bool
between low high n = leb low n && leb n high

-- a letter, a digit, `_` or `-`, by its code point
unfoldable pub is_name_char : Char → Bool
unfolding between
is_name_char c =
    between 97 122 (code c)
    || between 65 90 (code c)
    || between 48 57 (code c)
    || code c == 95
    || code c == 45

unfoldable pub is_valid_tool_name : String → Bool
is_valid_tool_name name = if str_eq name "" then false else all_chars is_name_char name

unfoldable pub is_verbosity_valid : String → Bool
is_verbosity_valid v = str_eq v "brief" || str_eq v "standard" || str_eq v "detailed" || str_eq v ""

refusal : String → String → String → Option ValidationError
refusal code message suggestion =
    some (record { code = code; message = message; suggestion = suggestion })

-- the loop that looks for the context among those of the manager
names_context : String → List ContextInfo → Bool
names_context name [] = false
names_context name (ctx ∷ contexts) =
    if str_eq ctx.name name then true else names_context name contexts

validate_pagination : Option PaginationRequest → Option ValidationError
unfolding refusal
validate_pagination none = none
validate_pagination (some p) =
    if ltb_ℤ p.page (pos 0)
    then refusal "INVALID_ARGUMENTS" "页码不能为负数" "页码从 1 开始"
    else if ltb_ℤ p.page_size (pos 0)
    then refusal "INVALID_ARGUMENTS" "每页数量不能为负数" "每页数量范围为 1-500"
    else if ltb_ℤ max_page_size p.page_size
    then refusal "INVALID_ARGUMENTS" "每页数量不能超过 500" "请将每页数量设置为 500 或更小"
    else none

module _ {W R E : Type 0} where
  -- the checks of a request that is not nil
  validate_some : ToolRegistry W R E → List ContextInfo → ToolCallRequest → Option ValidationError
  unfolding refusal names_context validate_pagination
  validate_some r contexts req =
      let name = get_tool_name req in
      if str_eq name ""
      then refusal "INVALID_TOOL_NAME" "工具名称不能为空" ""
      else if not (is_valid_tool_name name)
      then refusal "INVALID_TOOL_NAME" ("工具名称 '" ++ name ++ "' 格式无效，只允许字母、数字、下划线和连字符") ""
      else if not (has_tool name r)
      then refusal "TOOL_NOT_FOUND" ("工具 '" ++ name ++ "' 不存在") ""
      else if not (str_eq req.context "") && not (names_context req.context contexts)
      then refusal "CONTEXT_NOT_FOUND" ("context '" ++ req.context ++ "' 不存在") ""
      else if not (str_eq req.verbosity "") && not (is_verbosity_valid req.verbosity)
      then refusal "INVALID_ARGUMENTS"
          ("无效的输出详细程度 '" ++ req.verbosity ++ "'，有效值为: brief, standard, detailed")
          "请使用 brief（简洁）、standard（标准）或 detailed（详细）"
      else validate_pagination req.pagination

  -- a nil request is `none`
  unfoldable pub validate_request :
      ToolRegistry W R E → List ContextInfo → Option ToolCallRequest → Option ValidationError
  unfolding validate_some refusal
  validate_request r contexts none = refusal "INVALID_REQUEST" "请求不能为空" ""
  validate_request r contexts (some req) = validate_some r contexts req

-- the writes of the two options into a map
inject_verbosity : String → Args → Args
inject_verbosity v args = if str_eq v "" then args else insert "_verbosity" (Value.str v) args

inject_pagination : Option PaginationRequest → Args → Args
inject_pagination none args = args
inject_pagination (some p) args =
    let normalized = normalize_pagination (some p) in
    insert "_pageSize" (Value.int normalized.page_size)
      (insert "_page" (Value.int normalized.page) args)

-- The options that are written into the arguments, or into a new map where there are none. A map
-- of the request is written in place, and so the request that is returned shows the options.
unfoldable pub with_options : ToolCallRequest → Args → Args
unfolding inject_verbosity inject_pagination
with_options req args = inject_pagination req.pagination (inject_verbosity req.verbosity args)

unfoldable pub inject_into : ToolCallRequest → Option Args → Args × ToolCallRequest
inject_into req none = (with_options req [], req)
inject_into req (some args) =
    let args' = with_options req args in (args', record req { arguments = some args' })

unfoldable pub inject_request_options : ToolCallRequest → Args × ToolCallRequest
unfolding inject_into
inject_request_options req = inject_into req req.arguments
