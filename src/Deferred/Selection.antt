-- ===== src/Deferred/Selection.antt =====
-- `DeferredToolSelection` and what the director does with it
-- (packages/deferred-tools/src/director.ts).
pub mod Prefixes
pub mod Surfacing
use workbench.Prelude.{
  String, ◌==◌, Bool, true, false, not, ◌&&◌, Option, none, some, or_else, List, [], ◌∷◌, ◌++◌, map,
  if◌then◌else◌, keep, contains, add, add_all, lookup, insert, Dict,
}
use workbench.Deferred.Match.{
  Runtime, ToolDefinition, tool_namespace, select_by_patterns, search_definitions,
}

abbrev pub tool_search_name : String
tool_search_name = "tool_search"

abbrev pub tool_search_definition : ToolDefinition
tool_search_definition = record {
  name = tool_search_name;
  description =
      "Search this agent's other tools by keyword. The request lists only some of the tools available; this one answers with the name, description and input schema of every tool matching the query, and those tools become callable on the next turn. An empty query lists them all. Search before saying a thing cannot be done.";
  input_schema =
      "{\"type\":\"object\",\"properties\":{\"query\":{\"type\":\"string\"}},\"required\":[\"query\"]}";
}

pub record DirectorConfig : Type 0 where
  pub visible : List String
  pub deferred : List String

pub record Selection : Type 0 where
  pub deferred : List ToolDefinition
  pub always : List ToolDefinition
  pub surfaced : List String  -- an insertion-ordered set

-- A block of a turn: a tool call with its query, if that is a text, or another block.
pub data Block : Type 0 where
  tool_call : String → Option String → Block
  other_block : Block

pub data Event : Type 0 where
  inference_done : List Block → Event
  other_event : Event

abbrev pub names : List ToolDefinition → List String
names [] = []
names (d ∷ ds) = d.name ∷ names ds

-- `new Map(deferred.map((definition) => [definition.name, definition]))`
unfoldable pub by_name : Dict ToolDefinition → List ToolDefinition → Dict ToolDefinition
by_name m [] = m
by_name m (d ∷ ds) = by_name (insert d.name d m) ds

abbrev pub push_found : Option ToolDefinition → List ToolDefinition → List ToolDefinition
push_found none rest = rest
push_found (some d) rest = d ∷ rest

-- The loop of `tools` over the surfaced names.
unfoldable pub surfaced_tools : Dict ToolDefinition → List String → List ToolDefinition
surfaced_tools m [] = []
surfaced_tools m (n ∷ ns) = push_found (lookup n m) (surfaced_tools m ns)

-- What an inference call is sent.
unfoldable pub tools : Selection → List ToolDefinition
unfolding surfaced_tools
tools s = s.always ++ surfaced_tools (by_name [] s.deferred) s.surfaced

-- The loop of `surface` over the deferred definitions.
unfoldable pub surface_namespaces : List String → List ToolDefinition → List String → List String
surface_namespaces namespaces [] surfaced = surfaced
surface_namespaces namespaces (d ∷ ds) surfaced =
    surface_namespaces namespaces ds
      (if contains namespaces (tool_namespace d.name) then add surfaced d.name else surfaced)

abbrev pub namespaces_of : List ToolDefinition → List String
namespaces_of [] = []
namespaces_of (d ∷ ds) = tool_namespace d.name ∷ namespaces_of ds

module _ (js : Runtime) where
  -- the constructor
  unfoldable pub new_selection : List ToolDefinition → DirectorConfig → Selection
  new_selection definitions config =
      let deferred = select_by_patterns js definitions config.deferred in
      let deferred_names = add_all [] (names deferred) in
      record {
        deferred = deferred;
        always =
            keep (λ d. not (contains deferred_names d.name) && not (d.name == tool_search_name))
              definitions
            ++ tool_search_definition ∷ [];
        surfaced = [];
      }

  unfoldable pub surface : Selection → String → Selection
  unfolding surface_namespaces
  surface s query =
      let namespaces = add_all [] (namespaces_of (search_definitions js s.deferred query)) in
      record s { surfaced = surface_namespaces namespaces s.deferred s.surfaced }

  unfoldable pub surface_block : Selection → Block → Selection
  surface_block s other_block = s
  surface_block s (tool_call name query) =
      if name == tool_search_name then surface s (or_else query "") else s

  unfoldable pub surface_blocks : Selection → List Block → Selection
  unfolding surface_block
  surface_blocks s [] = s
  surface_blocks s (b ∷ bs) = surface_blocks (surface_block s b) bs

  unfoldable pub surface_from_event : Event → Selection → Selection
  unfolding surface_blocks
  surface_from_event other_event s = s
  surface_from_event (inference_done blocks) s = surface_blocks s blocks

  -- `decide`: the selection after the event, and the tools that an inference is sent.
  unfoldable pub decide : Event → Selection → Selection × List ToolDefinition
  unfolding surface_from_event tools
  decide event s = let s' = surface_from_event event s in (s', tools s')
