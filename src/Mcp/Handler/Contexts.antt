-- ===== src/Mcp/Handler/Contexts.antt =====
-- What the context of a request decides in `HandleToolCall`, once the request is valid.
use kubectl_mcp.Prelude.{String, Bool, Option, none, some, ◌≡◌, refl}
use kubectl_mcp.Registry.{Outcome, returned, failed, panicked, Args}
use kubectl_mcp.K8s.{list_contexts}
use kubectl_mcp.Mcp.{
  ToolCallRequest, ErrorInfo, ToolResult, plain, paginated, nil_result, ToolCallResponse,
}
use kubectl_mcp.Mcp.Request.{
  get_tool_name, validate_request, inject_request_options, inject_into, with_options,
}
use kubectl_mcp.Mcp.Handler.{
  ServerState, McpHandler, Clock, AuditLog, format_response, finish_response, envelope,
  paginate_response, execute_request, handle_validated, handle_tool_call,
}

-- what a response says of the tool: whether it has succeeded, with what, or why not
pub data Answer (R : Type 0) : Type 0 where
  no_answer : Answer R
  answer : Bool → ToolResult R → Option ErrorInfo → Answer R

pub answer_of : {R : Type 0} → Option (ToolCallResponse R) → Answer R
answer_of none = no_answer
answer_of (some response) = answer response.success response.result_data response.error

-- the same request for another context
abbrev pub for_context : String → ToolCallRequest → ToolCallRequest
for_context context req = record req { context = context }

inject_into-for_context :
    (context : String) (req : ToolCallRequest) (o : Option Args)
    → (inject_into (for_context context req) o).0 ≡ (inject_into req o).0
unfolding inject_into with_options
inject_into-for_context context req none = refl
inject_into-for_context context req (some args) = refl

inject-for_context :
    (context : String) (req : ToolCallRequest)
    → (inject_request_options (for_context context req)).0 ≡ (inject_request_options req).0
unfolding inject_request_options inject_into with_options
inject-for_context context req = inject_into-for_context context req req.arguments

module _ {R : Type 0} (marshal : ToolResult R → Option String) (clock : Clock) where
  answer-finish :
      (req req' : ToolCallRequest) (target target' : String) (out : Outcome (ToolResult R) String)
      → answer_of (finish_response marshal clock req target out)
        ≡ answer_of (finish_response marshal clock req' target' out)
  unfolding finish_response format_response envelope paginate_response answer_of
  answer-finish req req' target target' panicked = refl
  answer-finish req req' target target' (failed e) = refl
  answer-finish req req' target target' (returned nil_result) = refl
  answer-finish req req' target target' (returned (plain r)) = refl
  answer-finish req req' target target' (returned (paginated r page)) = refl

module _ {W K D C R : Type 0} (marshal : ToolResult R → Option String) (clock : Clock)
    (h : McpHandler (ServerState W K D C) R) where
  execute-for_context :
      (context : String) (req : ToolCallRequest) (s : ServerState W K D C) (log : AuditLog)
      → ((execute_request marshal clock h (for_context context req) s log).state
          ≡ (execute_request marshal clock h req s log).state)
        × (answer_of (execute_request marshal clock h (for_context context req) s log).response
            ≡ answer_of (execute_request marshal clock h req s log).response)
  unfolding execute_request get_tool_name
  execute-for_context context req s log =
      rw (inject-for_context context req) (refl, answer-finish marshal clock _ _ _ _ _)

  -- A valid request does to the server, and answers of the tool, what the same request for any other
  -- context does that makes it valid too: the context of the request is validated and reported, but no
  -- tool is told of it.
  pub handle_tool_call-for_context :
      (context : String) (req : ToolCallRequest) (s : ServerState W K D C) (log : AuditLog)
      → validate_request h.tool_registry (list_contexts s.manager) (some req) ≡ none
      → validate_request h.tool_registry (list_contexts s.manager) (some (for_context context req))
        ≡ none
      → ((handle_tool_call marshal clock h (some (for_context context req)) s log).state
          ≡ (handle_tool_call marshal clock h (some req) s log).state)
        × (answer_of
              (handle_tool_call marshal clock h (some (for_context context req)) s log).response
            ≡ answer_of (handle_tool_call marshal clock h (some req) s log).response)
  unfolding handle_tool_call handle_validated
  handle_tool_call-for_context context req s log e e' =
      rw (e, e', handle_validated) (execute-for_context context req s log)
