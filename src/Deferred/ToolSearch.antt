-- ===== src/Deferred/ToolSearch.antt =====
-- The `tool_search` tool (packages/deferred-tools/src/tool-search.ts). The catalogue that the
-- director publishes (packages/deferred-tools/src/catalog.ts) is an argument.
pub mod Callable
use workbench.Prelude.{◌<>◌, String, ◌==◌, Bool, true, false, List, if◌then◌else◌}
use workbench.Deferred.Match.{
  Runtime, ToolDefinition, search_definitions, render_catalog_lines, render_matches,
}

-- What the schema makes of a call's arguments: the query, or the summary of what is wrong.
pub data Arguments : Type 0 where
  query_of : String → Arguments
  invalid : String → Arguments

pub record ToolCall : Type 0 where
  pub id : String
  pub arguments : Arguments

pub record ToolResult : Type 0 where
  pub call_id : String
  pub content : String
  pub is_error : Bool

abbrev pub answer : String → String → Bool → ToolResult
answer call_id content is_error = record {
  call_id = call_id;
  content = content;
  is_error = is_error;
}

module _ (js : Runtime) where
  unfoldable pub search_for : List ToolDefinition → String → String → ToolResult
  search_for catalog call_id query =
      if query == ""
      then answer call_id (render_catalog_lines js catalog) false
      else answer call_id (render_matches js (search_definitions js catalog query) query) false

  unfoldable pub search_arguments : List ToolDefinition → String → Arguments → ToolResult
  unfolding search_for
  search_arguments catalog call_id (invalid summary) =
      answer call_id ("tool_search takes { \"query\": string }: " <> summary) true
  search_arguments catalog call_id (query_of query) = search_for catalog call_id (js.trim query)

  unfoldable pub search : List ToolDefinition → ToolCall → ToolResult
  unfolding search_arguments
  search catalog call = search_arguments catalog call.id call.arguments
