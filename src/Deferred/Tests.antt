-- ===== src/Deferred/Tests.antt =====
-- Runs of the deferred tools, in a runtime that folds no case.
use workbench.Prelude.{
  ◌≡◌, refl, ◌↔◌, String, ◌==◌, true, false, not, ◌&&◌, ◌||◌, some, List, [], ◌∷◌, nat_eq, contains,
  any, add, add_all, lookup, insert,
}
use workbench.Deferred.Match.{
  Runtime, ToolDefinition, matches_name_pattern, search_definitions, select_by_patterns, one_char,
  any_run, ends_line, glob, search_tokens, tokenize, tokens_from, includes, haystack, begins_with,
  tool_namespace,
}
use workbench.Deferred.Globs.{Matches, matches_name_pattern_iff}
use workbench.Deferred.Selection.{
  DirectorConfig, Event, tool_call, inference_done, tool_search_name, names, tools, surface, decide,
  by_name, surface_block, surface_blocks, surface_from_event, surface_namespaces, surfaced_tools,
  new_selection,
}
use workbench.Deferred.Selection.Prefixes.{Begins, after_events, tools-after_events}
use workbench.Deferred.ToolSearch.{query_of, search}
use workbench.Deferred.ToolSearch.Callable.{Reports, reported-callable}
use workbench.Deferred.Selection.Surfacing.{later, contains-tools-later}

abbrev ascii : Runtime
ascii = record {
  fold = λ n. n;
  lower = λ s. s;
  is_word = λ n. not (nat_eq n b' ');
  trim = λ s. s;
  length16 = λ s. 0;
  slice16 = λ s i j. s;
  stringify = λ s. s;
}

abbrev tool : String → String → ToolDefinition
tool n d = record { name = n; description = d; input_schema = "{}" }

abbrev definitions : List ToolDefinition
definitions =
    tool "memory_read" "reads a note"
    ∷ tool "shell" "runs a command"
    ∷ tool "memory_write" "stores text"
    ∷ tool "web_get" "fetches a page"
    ∷ []

abbrev config : DirectorConfig
config = record { visible = "shell" ∷ []; deferred = "memory_*" ∷ "web_*" ∷ [] }

abbrev search_note : List Event
search_note = inference_done (tool_call "tool_search" (some "note") ∷ []) ∷ []

first_turn : names (tools (new_selection ascii definitions config)) ≡ "shell" ∷ "tool_search" ∷ []
unfolding tools new_selection contains add add_all select_by_patterns matches_name_pattern one_char
    any_run ends_line glob
first_turn = refl

-- A search that one memory tool matches surfaces both memory tools.
second_turn :
    names (tools (later ascii definitions config search_note))
    ≡ "shell" ∷ "tool_search" ∷ "memory_read" ∷ "memory_write" ∷ []
unfolding tools new_selection after_events decide surface contains add add_all lookup insert
    select_by_patterns matches_name_pattern one_char any_run ends_line glob search_definitions
    search_tokens tokenize tokens_from includes haystack begins_with tool_namespace by_name
    surface_block surface_blocks surface_from_event surface_namespaces surfaced_tools
second_turn = refl

matches_name_pattern_iff_example :
    (matches_name_pattern ascii "memory_read" "memory_*" ≡ true)
    ↔ Matches ascii.fold "memory_*" "memory_read"
matches_name_pattern_iff_example = matches_name_pattern_iff ascii "memory_read" "memory_*"

tools-after_events_example :
    Begins
      (tools (new_selection ascii definitions config))
      (tools (after_events ascii (new_selection ascii definitions config) search_note))
tools-after_events_example =
    tools-after_events ascii (new_selection ascii definitions config) search_note

contains-tools-later_example :
    contains (names (tools (later ascii definitions config search_note))) "web_get" ≡ (
      tool_search_name == "web_get"
      || (contains (names definitions) "web_get"
          && (not (any (λ p. matches_name_pattern ascii "web_get" p) config.deferred)
              || contains (later ascii definitions config search_note).surfaced "web_get")))
contains-tools-later_example = contains-tools-later ascii definitions config search_note "web_get"

reported-callable_example :
    Reports ascii
      (search ascii
        (new_selection ascii definitions config).deferred
        (record { id = "call"; arguments = query_of "note" }))
      "note"
      (search_definitions ascii (new_selection ascii definitions config).deferred "note")
    × ((search ascii
          (new_selection ascii definitions config).deferred
          (record { id = "call"; arguments = query_of "note" })).is_error
        ≡ false)
    × (contains
          (names (tools (surface ascii (new_selection ascii definitions config) "note")))
          "memory_read"
        ≡ true)
unfolding new_selection contains add add_all select_by_patterns matches_name_pattern one_char
    any_run ends_line glob search_definitions search_tokens tokenize tokens_from includes haystack
    begins_with
reported-callable_example =
    reported-callable ascii (new_selection ascii definitions config) "call" "note" "memory_read"
      refl refl refl
