-- ===== src/Mcp/Handler.antt =====
-- `HandleToolCall`, `FormatResponse`, `formatErrorFromError`, `formatErrorResponse` and
-- `logOperation`. `marshal` is `json.Marshal`, with `none` for its error; the audit log is the
-- entries given to `LogOperation`, the last one first, and `none` for a nil logger.
pub mod Calls
pub mod Success
pub mod Contexts
use kubectl_mcp.Prelude.{
  ℕ, ◌/◌, String, Bool, true, false, Option, none, some, List, [], ◌∷◌, str_eq, string_eq,
  if◌then◌else◌,
}
use kubectl_mcp.GoMap.{lookup}
use kubectl_mcp.Value.{Value}
use kubectl_mcp.Registry.{ToolRegistry, Args, Outcome, returned, failed, panicked, execute_tool}
use kubectl_mcp.K8s.{K8sClientManager, list_contexts, get_current_context}
use kubectl_mcp.Mcp.{
  ToolCallRequest, ErrorInfo, ContentItem, ToolResult, nil_result, plain, paginated,
  ToolCallResponse, ValidationError, OperationLog,
}
use kubectl_mcp.Mcp.Message.{error_message, classify_error}
use kubectl_mcp.Mcp.Request.{get_tool_name, validate_request, inject_request_options}

-- what the handlers act on
pub record ServerState (W K D C : Type 0) : Type 0 where
  pub cluster : W
  pub manager : K8sClientManager K D C

pub record McpHandler (S R : Type 0) : Type 0 where
  pub tool_registry : ToolRegistry S (ToolResult R) String
  pub version : String
  pub start_time : ℕ

-- The call's end, for the log, and how long the tool took, both in nanoseconds.
pub record Clock : Type 0 where
  pub now : ℕ
  pub duration : ℕ

abbrev pub AuditLog : Type 0
AuditLog = Option (List OperationLog)

-- `req.Arguments[key].(string)`, or the empty string
text_of : Option Value → String
text_of (some (Value.str s)) = s
text_of _ = ""

string_argument : String → Option Args → String
unfolding text_of
string_argument key none = ""
string_argument key (some args) = text_of (lookup key args)

append_log : OperationLog → AuditLog → AuditLog
append_log entry none = none
append_log entry (some entries) = some (entry ∷ entries)

validation_info : ValidationError → ErrorInfo
validation_info e = record {
  kind = "CLIENT_ERROR";
  code = e.code;
  message = e.message;
  details = "";
  suggestion = e.suggestion;
}

request_id_of : Option ToolCallRequest → String
request_id_of none = ""
request_id_of (some req) = req.request_id

-- the text of the content, empty for nil and for a result that has no JSON
text_or_empty : Option String → String
text_or_empty none = ""
text_or_empty (some text) = text

content_items : String → List ContentItem
content_items text = if str_eq text "" then [] else record { kind = "text"; text = text } ∷ []

module _ {R : Type 0} where
  is_success : Outcome (ToolResult R) String → Bool
  is_success (returned r) = true
  is_success _ = false

  error_text : Outcome (ToolResult R) String → String
  error_text (failed e) = error_message e
  error_text _ = ""

  -- the entry of one call
  unfoldable pub operation_log :
      Clock → ToolCallRequest → String → Outcome (ToolResult R) String → OperationLog
  unfolding is_success error_text string_argument
  operation_log clock req context out = record {
    timestamp = clock.now;
    tool = get_tool_name req;
    user = req.user;
    arguments = req.arguments;
    context = context;
    namespace = string_argument "namespace" req.arguments;
    resource_type = string_argument "resourceType" req.arguments;
    resource_name = string_argument "name" req.arguments;
    success = is_success out;
    error = error_text out;
    duration = clock.duration;
  }

  unfoldable pub log_operation :
      Clock → ToolCallRequest → String → Outcome (ToolResult R) String → AuditLog → AuditLog
  unfolding append_log
  log_operation clock req context out log = append_log (operation_log clock req context out) log

  unfoldable pub error_response : ErrorInfo → ToolCallResponse R
  error_response e = record {
    success = false;
    result_data = nil_result;
    content = [];
    error = some e;
    request_id = "";
    duration = 0;
    context = "";
    pagination = none;
  }

  unfoldable pub format_error_response :
      ValidationError → Option ToolCallRequest → ToolCallResponse R
  unfolding validation_info request_id_of
  format_error_response e req = record (error_response (validation_info e)) {
    request_id = request_id_of req;
  }

  content_text : (ToolResult R → Option String) → ToolResult R → String
  unfolding text_or_empty
  content_text marshal nil_result = ""
  content_text marshal r = text_or_empty (marshal r)

  unfoldable pub success_response :
      (ToolResult R → Option String) → ToolResult R → ToolCallResponse R
  unfolding content_text content_items
  success_response marshal r = record {
    success = true;
    result_data = r;
    content = content_items (content_text marshal r);
    error = none;
    request_id = "";
    duration = 0;
    context = "";
    pagination = none;
  }

  -- `FormatResponse`; a panic of the handler never comes here
  unfoldable pub format_response :
      (ToolResult R → Option String) → Outcome (ToolResult R) String → Option (ToolCallResponse R)
  format_response marshal (returned r) = some (success_response marshal r)
  format_response marshal (failed e) = some (error_response (classify_error (error_message e)))
  format_response marshal panicked = none

  -- the fields of the call that the response carries
  envelope : Clock → ToolCallRequest → String → ToolCallResponse R → ToolCallResponse R
  envelope clock req context response = record response {
    request_id = req.request_id;
    duration = clock.duration / 1_000_000;
    context = context;
  }

  -- the data and the page of a paginated result
  paginate_response : Outcome (ToolResult R) String → ToolCallResponse R → ToolCallResponse R
  paginate_response (returned (paginated items page)) response = record response {
    result_data = plain items;
    pagination = page;
  }
  paginate_response _ response = response

  unfoldable pub finish_response :
      (ToolResult R → Option String)
      → Clock
      → ToolCallRequest
      → String
      → Outcome (ToolResult R) String
      → Option (ToolCallResponse R)
  unfolding envelope paginate_response
  finish_response marshal clock req context out = elim (format_response marshal out) [
    | none ↦ none
    | some response ↦ some (paginate_response out (envelope clock req context response))
  ]

  -- a call that panics is not logged
  log_unless_panicked :
      Clock → ToolCallRequest → String → Outcome (ToolResult R) String → AuditLog → AuditLog
  log_unless_panicked clock req context panicked log = log
  log_unless_panicked clock req context out log = log_operation clock req context out log

-- what a call leaves behind; a `response` of `none` is a panic
pub record CallResult (S R : Type 0) : Type 0 where
  pub state : S
  pub log : AuditLog
  pub request : Option ToolCallRequest
  pub response : Option (ToolCallResponse R)

unfoldable pub target_context : {K D C : Type 0} → ToolCallRequest → K8sClientManager K D C → String
target_context req m = if str_eq req.context "" then get_current_context m else req.context

module _ {W K D C R : Type 0} where
  -- a request that has passed validation
  unfoldable pub execute_request :
      (ToolResult R → Option String)
      → Clock
      → McpHandler (ServerState W K D C) R
      → ToolCallRequest
      → ServerState W K D C
      → AuditLog
      → CallResult (ServerState W K D C) R
  unfolding log_unless_panicked
  execute_request marshal clock h req s log =
      let context = target_context req s.manager in
      let (args, req') = inject_request_options req in
      let (s', out) = execute_tool h.tool_registry (get_tool_name req) args s in
      record {
        state = s';
        log = log_unless_panicked clock req' context out log;
        request = some req';
        response = finish_response marshal clock req' context out;
      }

  handle_validated :
      (ToolResult R → Option String)
      → Clock
      → McpHandler (ServerState W K D C) R
      → Option ToolCallRequest
      → Option ValidationError
      → ServerState W K D C
      → AuditLog
      → CallResult (ServerState W K D C) R
  handle_validated marshal clock h (some req) none s log = execute_request marshal clock h req s log
  -- validation never passes a nil request; the source would read its fields and panic
  handle_validated marshal clock h none none s log = record {
    state = s;
    log = log;
    request = none;
    response = none;
  }
  handle_validated marshal clock h req (some e) s log = record {
    state = s;
    log = log;
    request = req;
    response = some (format_error_response e req);
  }

  unfoldable pub handle_tool_call :
      (ToolResult R → Option String)
      → Clock
      → McpHandler (ServerState W K D C) R
      → Option ToolCallRequest
      → ServerState W K D C
      → AuditLog
      → CallResult (ServerState W K D C) R
  unfolding handle_validated
  handle_tool_call marshal clock h req s log =
      handle_validated marshal clock h req
        (validate_request h.tool_registry (list_contexts s.manager) req) s log
