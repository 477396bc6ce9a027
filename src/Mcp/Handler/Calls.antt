-- ===== src/Mcp/Handler/Calls.antt =====
-- What a call of `HandleToolCall` leaves behind: its entry in the audit log, its response, and the
-- handler that a success has run.
use kubectl_mcp.Prelude.{String, Option, none, some, Option-cases, ◌≡◌, ◌⊎◌, inl, inr, refl}
use kubectl_mcp.Registry.{Args, Outcome, returned, failed, panicked, execute_tool}
use kubectl_mcp.K8s.{list_contexts}
use kubectl_mcp.Mcp.{
  ToolCallRequest, ToolResult, nil_result, plain, paginated, ToolCallResponse, ValidationError,
  OperationLog,
}
use kubectl_mcp.Mcp.Request.{inject_into, get_tool_name, validate_request, inject_request_options}
use kubectl_mcp.Mcp.Handler.{
  ServerState, McpHandler, Clock, AuditLog, CallResult, operation_log, log_operation, append_log,
  format_error_response, format_response, error_response, success_response, finish_response,
  envelope, paginate_response, log_unless_panicked, target_context, execute_request,
  handle_validated, handle_tool_call, is_success,
}

-- what an entry of the log and a response say of one call
pub record Matches {R : Type 0} (req : ToolCallRequest) (target : String) (entry : OperationLog)
    (response : ToolCallResponse R) : Type 0 where
  pub tool : entry.tool ≡ get_tool_name req
  pub user : entry.user ≡ req.user
  pub logged_context : entry.context ≡ target
  pub context : response.context ≡ target
  pub request_id : response.request_id ≡ req.request_id
  pub verdict : entry.success ≡ response.success

inject_into-same :
    (req : ToolCallRequest) (o : Option Args)
    → ((inject_into req o).1.request_id ≡ req.request_id)
      × ((inject_into req o).1.user ≡ req.user)
      × (get_tool_name (inject_into req o).1 ≡ get_tool_name req)
unfolding inject_into get_tool_name
inject_into-same req none = (refl, refl, refl)
inject_into-same req (some args) = (refl, refl, refl)

inject-same :
    (req : ToolCallRequest)
    → ((inject_request_options req).1.request_id ≡ req.request_id)
      × ((inject_request_options req).1.user ≡ req.user)
      × (get_tool_name (inject_request_options req).1 ≡ get_tool_name req)
unfolding inject_request_options
inject-same req = inject_into-same req req.arguments

module _ {R : Type 0} (marshal : ToolResult R → Option String) (clock : Clock) where
  matches :
      (req req' : ToolCallRequest) (target : String) (out : Outcome (ToolResult R) String)
      (response : ToolCallResponse R)
      → req'.request_id ≡ req.request_id
      → req'.user ≡ req.user
      → get_tool_name req' ≡ get_tool_name req
      → response.context ≡ target
      → response.request_id ≡ req.request_id
      → is_success out ≡ response.success
      → Matches req target (operation_log clock req' target out) response
  unfolding operation_log
  matches req req' target out response i u t c r e = record {
    tool = t;
    user = u;
    logged_context = refl;
    context = c;
    request_id = r;
    verdict = e;
  }

  -- an outcome is a panic, which is not logged, or has a response that its entry matches
  finished :
      (req req' : ToolCallRequest) (target : String) (out : Outcome (ToolResult R) String)
      (log : AuditLog)
      → (req'.request_id ≡ req.request_id)
      → (req'.user ≡ req.user)
      → (get_tool_name req' ≡ get_tool_name req)
      → ((out ≡ panicked)
          × (finish_response marshal clock req' target out ≡ none)
          × (log_unless_panicked clock req' target out log ≡ log))
        ⊎ ((entry : OperationLog) × (response : ToolCallResponse R) × (finish_response marshal clock
                req' target out
              ≡ some response)
            × (log_unless_panicked clock req' target out log ≡ append_log entry log)
            × Matches req target entry response)
  unfolding finish_response format_response envelope paginate_response operation_log is_success
      error_response success_response log_unless_panicked log_operation
  finished req req' target panicked log i u t = inl (refl, refl, refl)
  finished req req' target (failed e) log i u t = inr (
    operation_log {R = R} clock req' target (failed e),
    _,
    refl,
    refl,
    matches req req' target (failed e) _ i u t refl i refl,
  )
  finished req req' target (returned nil_result) log i u t = inr (
    operation_log {R = R} clock req' target (returned nil_result),
    _,
    refl,
    refl,
    matches req req' target (returned nil_result) _ i u t refl i refl,
  )
  finished req req' target (returned (plain d)) log i u t = inr (
    operation_log {R = R} clock req' target (returned (plain d)),
    _,
    refl,
    refl,
    matches req req' target (returned (plain d)) _ i u t refl i refl,
  )
  finished req req' target (returned (paginated d p)) log i u t = inr (
    operation_log {R = R} clock req' target (returned (paginated d p)),
    _,
    refl,
    refl,
    matches req req' target (returned (paginated d p)) _ i u t refl i refl,
  )

-- what a refused request leaves behind: nothing but the response
pub RefusedCall :
    {S R : Type 0}
    → Option ToolCallRequest
    → S
    → AuditLog
    → ValidationError
    → CallResult S R
    → Type 0
RefusedCall req s log e result =
    (result.state ≡ s)
    × (result.log ≡ log)
    × (result.request ≡ req)
    × (result.response ≡ some (format_error_response e req))

-- what a call that was executed leaves behind: one entry, and a response that it matches
pub ExecutedCall : {S R : Type 0} → ToolCallRequest → String → AuditLog → CallResult S R → Type 0
unfolding append_log
ExecutedCall {S = S} {R = R} req target log result =
    (entry : OperationLog) × (response : ToolCallResponse R) × (result.response ≡ some response)
    × (result.log ≡ append_log entry log)
    × Matches req target entry response

-- a panic writes no entry and has no response
pub PanickedCall : {S R : Type 0} → AuditLog → CallResult S R → Type 0
PanickedCall log result = (result.response ≡ none) × (result.log ≡ log)

module _ {W K D C R : Type 0} (marshal : ToolResult R → Option String) (clock : Clock)
    (h : McpHandler (ServerState W K D C) R) where
  execute_request-logged :
      (req : ToolCallRequest) (s : ServerState W K D C) (log : AuditLog)
      → PanickedCall log (execute_request marshal clock h req s log)
        ⊎ ExecutedCall req
            (target_context req s.manager)
            log
            (execute_request marshal clock h req s log)
  unfolding execute_request PanickedCall ExecutedCall
  execute_request-logged req s log =
      let (i, u, t) = inject-same req in
      elim (finished marshal clock req (inject_request_options req).1 (target_context req s.manager)
        (execute_tool h.tool_registry (get_tool_name req) (inject_request_options req).0 s).1 log i
        u t) [
          | inl (p, q, r) ↦ inl (q, r)
          | inr (entry, response, q, r, m) ↦ inr (entry, response, q, r, m)
        ]

  -- A call whose request is refused leaves the server, the log and the request as they were, and
  -- answers with the refusal. Any other call either panics, and is not logged, or writes one entry to
  -- the log and has a response, and the two agree on the tool's success and on the context, the
  -- entry has the request's tool and user, and the response its id.
  pub handle_tool_call-logged :
      (req : ToolCallRequest) (s : ServerState W K D C) (log : AuditLog)
      → ((e : ValidationError) × (validate_request h.tool_registry
              (list_contexts s.manager)
              (some req)
            ≡ some e)
          × RefusedCall (some req) s log e (handle_tool_call marshal clock h (some req) s log))
        ⊎ ((validate_request h.tool_registry (list_contexts s.manager) (some req) ≡ none)
            × (PanickedCall log (handle_tool_call marshal clock h (some req) s log)
                ⊎ ExecutedCall req
                    (target_context req s.manager)
                    log
                    (handle_tool_call marshal clock h (some req) s log)))
  unfolding handle_tool_call handle_validated RefusedCall
  handle_tool_call-logged req s log =
      elim (Option-cases (validate_request h.tool_registry (list_contexts s.manager) (some req))) [
        | inl e ↦ inr (e, rw e (execute_request-logged req s log))
        | inr (error, e) ↦ inl (error, e, (rw e refl, rw e refl, rw e refl, rw e refl))
      ]
