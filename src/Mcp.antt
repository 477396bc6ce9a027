-- ===== src/Mcp.antt =====
-- internal/mcp/types.go and internal/mcp/protocol.go: the requests, the responses, and
-- `MCPHandler.HandleToolCall` with all it calls. The handlers of the tools act on `ServerState`:
-- the cluster beside the client manager. What a handler fails with is the message of its error.
-- internal/tools does not import internal/mcp, so that no handler returns a `ValidationError`.
pub mod Message
pub mod Chars
pub mod Request
pub mod Handler
mod Tests
use kubectl_mcp.Prelude.{ℕ, String, Bool, Option, List}
use kubectl_mcp.Prelude.Int.{ℤ}
use kubectl_mcp.Value.{Value}
use kubectl_mcp.Registry.{Args}
use kubectl_mcp.Paging.{PaginationRequest, PaginationInfo}

pub record UserInfo : Type 0 where
  pub id : String
  pub name : String
  pub role : String

-- A nil `Arguments` is `none`; an empty string stands for a field that is left out, as in the source.
pub record ToolCallRequest : Type 0 where
  pub tool : String
  pub name : String
  pub arguments : Option Args
  pub user : Option UserInfo
  pub context : String
  pub request_id : String
  pub verbosity : String
  pub pagination : Option PaginationRequest

pub record ErrorInfo : Type 0 where
  pub kind : String
  pub code : String
  pub message : String
  pub details : String
  pub suggestion : String

pub record ContentItem : Type 0 where
  pub kind : String
  pub text : String

-- What a handler returns: nil, a value, or a `*PaginatedResult`.
pub data ToolResult (D : Type 0) : Type 0 where
  nil_result : ToolResult D
  plain : D → ToolResult D
  paginated : D → Option PaginationInfo → ToolResult D

pub record ToolCallResponse (D : Type 0) : Type 0 where
  pub success : Bool
  pub result_data : ToolResult D
  pub content : List ContentItem
  pub error : Option ErrorInfo
  pub request_id : String
  pub duration : ℕ
  pub context : String
  pub pagination : Option PaginationInfo

pub record ValidationError : Type 0 where
  pub code : String
  pub message : String
  pub suggestion : String

-- the `audit.OperationLog` that the handler fills
pub record OperationLog : Type 0 where
  pub timestamp : ℕ
  pub tool : String
  pub user : Option UserInfo
  pub arguments : Option Args
  pub context : String
  pub namespace : String
  pub resource_type : String
  pub resource_name : String
  pub success : Bool
  pub error : String
  pub duration : ℕ
