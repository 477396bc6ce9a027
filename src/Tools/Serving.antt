-- ===== src/Tools/Serving.antt =====
-- `HandleToolCall` over the registry that the server starts with.
use kubectl_mcp.Prelude.{ℕ, String, true, Option, is_some, ◌≡◌}
use kubectl_mcp.Registry.{ToolHandler}
use kubectl_mcp.Mcp.{ToolCallRequest, ToolResult}
use kubectl_mcp.Mcp.Handler.{ServerState, McpHandler, Clock, AuditLog, handle_tool_call}
use kubectl_mcp.Mcp.Handler.Success.{handle_tool_call-total}
use kubectl_mcp.Tools.{init_tool_registry}
use kubectl_mcp.Tools.Table.{init-IsWellFormed}
use kubectl_mcp.Tools.Schemas.{registered-HasTextEnums}

module _ {W K D C R : Type 0}
    (handlers : String → ToolHandler (ServerState W K D C) (ToolResult R) String) where
  -- the handler that the server makes, over the registered tools
  abbrev pub mcp_handler : String → ℕ → McpHandler (ServerState W K D C) R
  mcp_handler version start_time = record {
    tool_registry = (init_tool_registry handlers).0;
    version = version;
    start_time = start_time;
  }

  -- Over the registered tools every call of `HandleToolCall` has a response: no request, nil among
  -- them, makes it panic, where no tool's function panics.
  pub mcp_handler-total :
      (marshal : ToolResult R → Option String) (clock : Clock) (version : String) (start_time : ℕ)
      (req : Option ToolCallRequest) (s : ServerState W K D C) (log : AuditLog)
      → is_some (handle_tool_call marshal clock (mcp_handler version start_time) req s log).response
        ≡ true
  mcp_handler-total marshal clock version start_time req s log =
      handle_tool_call-total marshal clock (mcp_handler version start_time) req s log
        (init-IsWellFormed handlers) (registered-HasTextEnums handlers)
