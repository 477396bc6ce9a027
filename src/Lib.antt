-- ===== src/Lib.antt =====
-- kubectl-mcp: a server that runs Kubernetes tools for MCP clients over HTTP. A request passes the
-- middleware, is answered from the query cache or given to the protocol handler, which validates it
-- and runs the tool of the registry; the tools' handlers use the clients of the client manager.
--
-- Http: internal/server/http.go. Http.Middleware is the chain of `setupMiddleware` around a route,
-- Http.Header the parsing of the Authorization header; Http.ToolCall is `handleToolCall`, over
-- Http.Tables, the tables `CacheableTools` and `InvalidatingTools` of internal/server/cache.go.
-- Mcp: internal/mcp/protocol.go and the types of internal/mcp/types.go. Mcp.Request has
-- `ValidateRequest` and `injectRequestOptions`, Mcp.Message the messages of errors and
-- `classifyError`, Mcp.Handler `HandleToolCall`, with the audit log as the list of its entries.
-- Registry: internal/tools/registry.go. A handler is a function on the state of the server.
-- Tools: the tools that internal/tools/register_*.go and delete.go declare, with their schemas, and
-- `initToolRegistry` of cmd/server/main.go; the functions of the tools are a parameter there.
-- Deletion: internal/tools/delete_*.go. Deletion.Single has the tools that delete one object,
-- Deletion.Batch `DeleteResources`, whose goroutines are a step relation, Deletion.Preview
-- `PreviewDeleteResources`, with the analyses of each kind in Deletion.Preview.Analysis. A handler
-- acts on the client manager and on the list of the calls that it makes of the Kubernetes API; the
-- reads of an analysis are arguments.
-- Config: `Validate` of internal/config/config.go.
-- Errors: pkg/utils/errors.go. Errors.Classify is `ClassifyError`, Errors.Format the formats, the
-- wrapping and the tests of a type, Errors.Tables the messages and suggestions, Errors.Constructors
-- the functions that make an error of a kind.
-- Indexer: internal/k8s/service_indexer.go, with the API's lists and events as arguments.
-- K8s: internal/k8s/client.go and context.go, over client-go as the record `ClientGo`.
-- Cache: internal/server/cache.go. RateLimit: internal/server/ratelimiter.go.
-- Paging: the pagination helpers of internal/mcp/types.go.
-- Value is Go's `interface{}` as JSON fills it, GoMap Go's map as an association list, Prelude the
-- names that all modules share.
--
-- State is passed explicitly: an operation takes the state and returns the new one with its result,
-- and a mutex makes it one step; the two locks of the cache's `Get` are one step too. The clock is
-- an argument. A panic is a value of the result. A map is a list of entries in any order, so that a
-- theorem about every list covers every order in which `range` may visit it. The waits of the
-- limiters recurse on the list of the rounds that the clock and the context give them. An `int64`
-- wraps; the times are natural numbers of nanoseconds.
--
-- Parameters: client-go, the answers of the Kubernetes API, `json.Marshal` and SHA-256, the
-- lower-case form of a text, whether `os.Stat` reports a file as one that does not exist, the
-- arithmetic of `float64` (with the laws of IEEE 754 that a theorem relies on as its hypothesis),
-- what becomes of a float64 out of the range of an int32, and the functions of the tools where they
-- are not read.
-- Not modelled: the other handlers of the tools, which call the Kubernetes API; the metrics
-- collector behind its calls; the logger's output; the loading of the configuration and the
-- start-up; the logging and the recovery middleware, which pass requests on, and the timeout, which
-- may answer while a route still runs; that wrapping an error changes an `ErrorInfo` which others
-- may hold.
pub mod Prelude
pub mod GoMap
pub mod Value
pub mod Errors
pub mod Config
pub mod Cache
pub mod RateLimit
pub mod Paging
pub mod Registry
pub mod K8s
pub mod Indexer
pub mod Mcp
pub mod Http
pub mod Tools
pub mod Deletion
