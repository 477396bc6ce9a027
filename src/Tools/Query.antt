-- ===== src/Tools/Query.antt =====
-- internal/tools/register_query.go: the tools of `RegisterQueryTools`, in three groups.
pub mod Resources
pub mod Objects
pub mod Traces
