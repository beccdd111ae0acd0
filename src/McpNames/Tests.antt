-- ===== src/McpNames/Tests.antt =====
-- A run of the suggested names.
use text.Mathlib.TextLemmas.{append_cancel_left}
use workbench.Prelude.{
  ◌≡◌, refl, ap, sym, ◌∙◌, String, ◌==◌, false, none, some, [], ◌∷◌, arith, contains,
}
use workbench.Prelude.Tallies.{tally, count_marks, count_marks-tally}
use workbench.McpNames.{
  WebTexts, ServerInfo, server, base_name, suggest_mcp_server_name, server_reported_name,
  display_name_from_url, dedupe_mcp_name,
}
use workbench.McpNames.Fresh.{IsFree, suggest_mcp_server_name-IsFree}

-- Texts that are trimmed and in lower case, and numbers as tallies.
abbrev plain_texts : WebTexts
plain_texts = record {
  trim = λ s. s;
  lower = λ s. s;
  show = tally;
  first_units = λ n s. s;
  hostname = λ s. some s;
  strip_www = λ s. s;
  includes = λ s t. s == t;
  is_numeric = λ s. false;
  split_dots = λ s. s ∷ [];
  to_units = λ s. [];
  from_units = λ us. "";
  words = λ s. s ∷ [];
  capitalize = λ s. s;
  dashed = λ s. s;
  lower-numbered = λ base separator i j e.
      sym (count_marks-tally i)
      ∙ ap count_marks (append_cancel_left separator _ _ (append_cancel_left base _ _ e))
      ∙ count_marks-tally j;
}

abbrev linear : ServerInfo
linear = record { name = some "linear"; title = none }

suggest_mcp_server_name-IsFree_example :
    (name : String) × (suggest_mcp_server_name plain_texts 3 "mcp"
        (some linear)
        ("linear" ∷ "linear 11" ∷ [])
      ≡ some (record {
        name = name;
        source =
            (base_name
              (server_reported_name plain_texts (some linear))
              (display_name_from_url plain_texts "mcp")).1;
      }))
    × IsFree plain_texts " "
        (base_name
          (server_reported_name plain_texts (some linear))
          (display_name_from_url plain_texts "mcp")).0
        ("linear" ∷ "linear 11" ∷ [])
        name
suggest_mcp_server_name-IsFree_example =
    suggest_mcp_server_name-IsFree plain_texts 3 "mcp" (some linear) ("linear" ∷ "linear 11" ∷ [])
      (omega arith)

third :
    suggest_mcp_server_name plain_texts 3 "mcp" (some linear) ("linear" ∷ "linear 11" ∷ [])
    ≡ some (record { name = "linear 111"; source = server })
unfolding suggest_mcp_server_name dedupe_mcp_name contains
third = refl
