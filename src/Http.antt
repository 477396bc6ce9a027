-- ===== src/Http.antt =====
-- internal/server/http.go: `POST /tool`, with the tables of internal/server/cache.go that say which
-- tools are cached and which of them empty the cache, and the middleware before it.
pub mod Tables
pub mod ToolCall
pub mod Header
pub mod Middleware
mod Tests
