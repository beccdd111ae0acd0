-- ===== src/Deferred.antt =====
-- The deferred tools of packages/deferred-tools: the patterns and the search (src/match.ts), the
-- selection of the director (src/director.ts), and the `tool_search` tool with its catalogue
-- (src/tool-search.ts, src/catalog.ts).
pub mod Match
pub mod Globs
pub mod Selection
pub mod ToolSearch
mod Tests
