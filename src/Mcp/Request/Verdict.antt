-- ===== src/Mcp/Request/Verdict.antt =====
-- `ValidateRequest` against a description of the requests that are acceptable.
use Prim.Native.Char.{Char, code}
use kubectl_mcp.Prelude.{
  ◌≤◌, String, true, Option, none, some, List, [], ◌∷◌, ◌≡◌, ◌≢◌, ◌↔◌, ◌⊎◌, inl, arith, str_eq_iff,
  string_eq,
}
use kubectl_mcp.Prelude.Int.{pos, ◌≤ℤ◌}
use kubectl_mcp.Registry.{ToolRegistry, has_tool}
use kubectl_mcp.Paging.{PaginationRequest}
use kubectl_mcp.K8s.{ContextInfo}
use kubectl_mcp.Mcp.Chars.{AllChars, all_chars_iff}
use kubectl_mcp.Mcp.{ToolCallRequest}
use kubectl_mcp.Mcp.Request.{
  get_tool_name, is_valid_tool_name, is_name_char, between, is_verbosity_valid, names_context,
  validate_pagination, validate_some, validate_request, refusal,
}

-- a letter, a digit, `_` or `-`
pub IsNameChar : Char → Type 0
IsNameChar c =
    ((97 ≤ code c) × (code c ≤ 122))
    ⊎ ((65 ≤ code c) × (code c ≤ 90))
    ⊎ ((48 ≤ code c) × (code c ≤ 57))
    ⊎ (code c ≡ 95)
    ⊎ (code c ≡ 45)

pub IsToolName : String → Type 0
IsToolName name = (name ≢ "") × AllChars IsNameChar name

-- some context of the list has the name
pub Names : String → List ContextInfo → Type 0
Names name [] = ⊥
Names name (ctx ∷ contexts) = (ctx.name ≡ name) ⊎ Names name contexts

pub IsVerbosity : String → Type 0
IsVerbosity v = (v ≡ "") ⊎ (v ≡ "brief") ⊎ (v ≡ "standard") ⊎ (v ≡ "detailed")

pub IsPage : Option PaginationRequest → Type 0
IsPage none = Unit
IsPage (some p) = (pos 0 ≤ℤ p.page) × (pos 0 ≤ℤ p.page_size) × (p.page_size ≤ℤ pos 500)

pub IsAcceptable :
    {W R E : Type 0} → ToolRegistry W R E → List ContextInfo → ToolCallRequest → Type 0
unfolding IsToolName Names IsVerbosity IsPage
IsAcceptable r contexts req =
    IsToolName (get_tool_name req)
    × (has_tool (get_tool_name req) r ≡ true)
    × ((req.context ≡ "") ⊎ Names req.context contexts)
    × IsVerbosity req.verbosity
    × IsPage req.pagination

is_name_char_iff : (c : Char) → (is_name_char c ≡ true) ↔ IsNameChar c
unfolding is_name_char IsNameChar between
is_name_char_iff c = ground arith

is_valid_tool_name_iff : (name : String) → (is_valid_tool_name name ≡ true) ↔ IsToolName name
unfolding is_valid_tool_name IsToolName
is_valid_tool_name_iff name =
    ground (arith, str_eq_iff name "", all_chars_iff is_name_char IsNameChar name is_name_char_iff)

names_context_iff :
    (name : String) (contexts : List ContextInfo)
    → (names_context name contexts ≡ true) ↔ Names name contexts
unfolding names_context Names
names_context_iff name [] = ground arith
names_context_iff name (ctx ∷ contexts) =
    ground (arith, str_eq_iff ctx.name name, names_context_iff name contexts)

is_verbosity_valid_iff : (v : String) → (is_verbosity_valid v ≡ true) ↔ IsVerbosity v
unfolding is_verbosity_valid IsVerbosity
is_verbosity_valid_iff v =
    ground (
      arith,
      str_eq_iff v "",
      str_eq_iff v "brief",
      str_eq_iff v "standard",
      str_eq_iff v "detailed",
    )

empty-IsVerbosity : (v : String) → v ≡ "" → IsVerbosity v
unfolding IsVerbosity
empty-IsVerbosity v e = inl e

validate_pagination_iff : (p : Option PaginationRequest) → (validate_pagination p ≡ none) ↔ IsPage p
unfolding validate_pagination IsPage
validate_pagination_iff none = ground arith
validate_pagination_iff (some p) = ground arith

-- A request passes validation exactly when its tool's name is made of letters, digits, `_` and `-`
-- and is registered, its context is empty or one of the manager's, its verbosity is empty or one of
-- the three, and its page and page size are at least 0, the size at most 500.
pub validate_request_iff :
    {W R E : Type 0} (r : ToolRegistry W R E) (contexts : List ContextInfo) (req : ToolCallRequest)
    → (validate_request r contexts (some req) ≡ none) ↔ IsAcceptable r contexts req
unfolding validate_request validate_some refusal IsAcceptable
validate_request_iff r contexts req = ground (
  arith,
  str_eq_iff (get_tool_name req) "",
  is_valid_tool_name_iff (get_tool_name req),
  str_eq_iff req.context "",
  names_context_iff req.context contexts,
  str_eq_iff req.verbosity "",
  is_verbosity_valid_iff req.verbosity,
  empty-IsVerbosity req.verbosity,
  validate_pagination_iff req.pagination,
)

pub nil_request-refused :
    {W R E : Type 0} (r : ToolRegistry W R E) (contexts : List ContextInfo)
    → validate_request r contexts none ≢ none
unfolding validate_request refusal
nil_request-refused r contexts e = ground arith
