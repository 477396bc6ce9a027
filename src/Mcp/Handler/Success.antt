-- ===== src/Mcp/Handler/Success.antt =====
-- When a call of `HandleToolCall` succeeds, and that it answers.
use kubectl_mcp.Prelude.{String, true, Option, none, some, is_some, ◌≡◌, ◌≢◌, inl, refl, arith}
use kubectl_mcp.Registry.{
  Tool, ToolHandler, Outcome, returned, failed, panicked, get_tool, execute_tool,
}
use kubectl_mcp.Registry.Tools.{IsWellFormed}
use kubectl_mcp.Registry.Validation.{IsAccepted}
use kubectl_mcp.Registry.Execution.{execute_tool-returned}
use kubectl_mcp.Registry.Totality.{HasTextEnums, execute_tool-total}
use kubectl_mcp.K8s.{list_contexts}
use kubectl_mcp.Mcp.{ToolCallRequest, ToolResult, ToolCallResponse, ValidationError}
use kubectl_mcp.Mcp.Request.{get_tool_name, validate_request, inject_request_options}
use kubectl_mcp.Mcp.Request.Verdict.{IsAcceptable, validate_request_iff, nil_request-refused}
use kubectl_mcp.Mcp.Handler.{
  ServerState, McpHandler, Clock, AuditLog, CallResult, format_error_response, format_response,
  error_response, finish_response, envelope, paginate_response, target_context, execute_request,
  handle_validated, handle_tool_call,
}

-- a response that reports success
unfoldable pub IsSuccess : {R : Type 0} → Option (ToolCallResponse R) → Type 0
IsSuccess none = ⊥
IsSuccess (some response) = response.success ≡ true

module _ {R : Type 0} (marshal : ToolResult R → Option String) (clock : Clock) where
  finish-IsSuccess :
      (req : ToolCallRequest) (target : String) (out : Outcome (ToolResult R) String)
      → IsSuccess (finish_response marshal clock req target out)
      → (r : ToolResult R) × (out ≡ returned r)
  unfolding finish_response format_response envelope paginate_response error_response IsSuccess
  finish-IsSuccess req target panicked h = absurd h
  finish-IsSuccess req target (failed e) h = ground arith
  finish-IsSuccess req target (returned r) h = (r, refl)

  finish-total :
      (req : ToolCallRequest) (target : String) (out : Outcome (ToolResult R) String)
      → out ≢ panicked
      → is_some (finish_response marshal clock req target out) ≡ true
  unfolding finish_response format_response
  finish-total req target panicked h = absurd (h refl)
  finish-total req target (failed e) h = refl
  finish-total req target (returned r) h = refl

-- what a success is: the tool's handler has returned, on arguments that the tool accepts
pub Succeeded :
    {W K D C R : Type 0}
    → McpHandler (ServerState W K D C) R
    → ToolCallRequest
    → ServerState W K D C
    → CallResult (ServerState W K D C) R
    → Type 0
Succeeded {W = W} {K = K} {D = D} {C = C} {R = R} h req s result =
    let args = (inject_request_options req).0 in
    (tool : Tool (ServerState W K D C) (ToolResult R) String) × (handler : ToolHandler
      (ServerState W K D C) (ToolResult R) String)
    × (r : ToolResult R) × (get_tool (get_tool_name req) h.tool_registry ≡ some tool)
    × (tool.handler ≡ some handler)
    × IsAccepted tool.input_schema args
    × (result.state ≡ (handler args s).0)
    × ((handler args s).1 ≡ inl r)

module _ {W K D C R : Type 0} (marshal : ToolResult R → Option String) (clock : Clock)
    (h : McpHandler (ServerState W K D C) R) where
  execute_request-Succeeded :
      (req : ToolCallRequest) (s : ServerState W K D C) (log : AuditLog)
      → IsWellFormed h.tool_registry
      → IsSuccess (execute_request marshal clock h req s log).response
      → Succeeded h req s (execute_request marshal clock h req s log)
  unfolding execute_request Succeeded
  execute_request-Succeeded req s log v ok =
      let args = (inject_request_options req).0 in
      let (r, e) =
        finish-IsSuccess marshal clock (inject_request_options req).1 (target_context req s.manager)
          (execute_tool h.tool_registry (get_tool_name req) args s).1 ok in
      let (tool, handler, found, handled, good, done, out) =
        execute_tool-returned h.tool_registry (get_tool_name req) args s r v e in
      (tool, handler, r, found, handled, good, done, out)

  handled :
      (req : ToolCallRequest) (o : Option ValidationError) (s : ServerState W K D C)
      (log : AuditLog)
      → validate_request h.tool_registry (list_contexts s.manager) (some req) ≡ o
      → IsWellFormed h.tool_registry
      → IsSuccess (handle_validated marshal clock h (some req) o s log).response
      → IsAcceptable h.tool_registry (list_contexts s.manager) req
        × Succeeded h req s (handle_validated marshal clock h (some req) o s log)
  unfolding handle_validated format_error_response error_response IsSuccess
  handled req none s log e v ok = (
    (validate_request_iff h.tool_registry (list_contexts s.manager) req).0 e,
    execute_request-Succeeded req s log v ok,
  )
  handled req (some x) s log e v ok = ground arith

  -- In a well-formed registry a response of success means that the request is acceptable, that the
  -- tool accepts the arguments, with the options written into them, and that its handler has
  -- returned on them a result, and the server is as the handler has left it.
  pub handle_tool_call-Succeeded :
      (req : ToolCallRequest) (s : ServerState W K D C) (log : AuditLog)
      → IsWellFormed h.tool_registry
      → IsSuccess (handle_tool_call marshal clock h (some req) s log).response
      → IsAcceptable h.tool_registry (list_contexts s.manager) req
        × Succeeded h req s (handle_tool_call marshal clock h (some req) s log)
  unfolding handle_tool_call
  handle_tool_call-Succeeded req s log v =
      handled req (validate_request h.tool_registry (list_contexts s.manager) (some req)) s log refl
        v

  handle_validated-total :
      (req : Option ToolCallRequest) (o : Option ValidationError) (s : ServerState W K D C)
      (log : AuditLog)
      → validate_request h.tool_registry (list_contexts s.manager) req ≡ o
      → IsWellFormed h.tool_registry
      → ((name : String) (tool : Tool (ServerState W K D C) (ToolResult R) String)
          → get_tool name h.tool_registry ≡ some tool
          → HasTextEnums tool.input_schema)
      → is_some (handle_validated marshal clock h req o s log).response ≡ true
  unfolding handle_validated execute_request
  handle_validated-total (some req) none s log e v t =
      finish-total marshal clock (inject_request_options req).1 (target_context req s.manager)
        (execute_tool h.tool_registry (get_tool_name req) (inject_request_options req).0 s).1
        (execute_tool-total h.tool_registry (get_tool_name req) (inject_request_options req).0 s v
          t)
  handle_validated-total none none s log e v t =
      absurd (nil_request-refused h.tool_registry (list_contexts s.manager) e)
  handle_validated-total req (some x) s log e v t = refl

  -- In a well-formed registry whose enumerations are of texts, every call has a response.
  pub handle_tool_call-total :
      (req : Option ToolCallRequest) (s : ServerState W K D C) (log : AuditLog)
      → IsWellFormed h.tool_registry
      → ((name : String) (tool : Tool (ServerState W K D C) (ToolResult R) String)
          → get_tool name h.tool_registry ≡ some tool
          → HasTextEnums tool.input_schema)
      → is_some (handle_tool_call marshal clock h req s log).response ≡ true
  unfolding handle_tool_call
  handle_tool_call-total req s log v t =
      handle_validated-total req (validate_request h.tool_registry (list_contexts s.manager) req) s
        log refl v t
