-- ===== src/Deferred/Match.antt =====
-- packages/deferred-tools/src/match.ts. Case mapping, the Unicode classes, `trim` and the UTF-16
-- length and slice belong to the JavaScript runtime: they are the parameter `Runtime`.
use Prim.Native.Char.{code}
use workbench.Prelude.{
  ◌<>◌, ℕ, String, Bool, true, false, not, ◌&&◌, ◌||◌, List, [], ◌∷◌, nat_eq, ltb, if◌then◌else◌,
  keep, any, all, map,
}

pub record Runtime : Type 0 where
  pub fold : ℕ → ℕ  -- the case folding of the flags "iu"
  pub lower : String → String  -- `toLowerCase`
  pub is_word : ℕ → Bool  -- \p{L}, \p{N} or "_"
  pub trim : String → String
  pub length16 : String → ℕ
  pub slice16 : String → ℕ → ℕ → String
  pub stringify : String → String  -- `JSON.stringify` of a text

-- The fields that the package reads; the schema as its JSON text.
pub record ToolDefinition : Type 0 where
  pub name : String
  pub description : String
  pub input_schema : String

-- What `.` does not match in a regular expression.
unfoldable pub ends_line : ℕ → Bool
ends_line n = nat_eq n 10 || nat_eq n 13 || nat_eq n 8232 || nat_eq n 8233

-- `.*` before a rest `k` of the pattern
unfoldable pub any_run : (String → Bool) → String → Bool
any_run k String.[] = k String.[]
any_run k (String.◌∷◌ c s) = k (String.◌∷◌ c s) || (not (ends_line (code c)) && any_run k s)

-- One character of the pattern that is no `*`, before a rest `k`.
unfoldable pub one_char : (ℕ → ℕ) → ℕ → (String → Bool) → String → Bool
one_char fold n k String.[] = false
one_char fold n k (String.◌∷◌ c s) = nat_eq (fold n) (fold (code c)) && k s

-- The regular expression that `matchesNamePattern` builds from a pattern: every character stands
-- for itself, but `*` for any run of characters, and the whole name is matched.
unfoldable pub glob : (ℕ → ℕ) → String → String → Bool
glob fold String.[] String.[] = true
glob fold String.[] (String.◌∷◌ d s) = false
glob fold (String.◌∷◌ c p) s =
    if nat_eq (code c) b'*' then any_run (glob fold p) s else one_char fold (code c) (glob fold p) s

-- `name.slice(0, name.search(/[_.]/))`, and the whole name where there is no separator.
unfoldable pub tool_namespace : String → String
tool_namespace String.[] = String.[]
tool_namespace (String.◌∷◌ c s) =
    if nat_eq (code c) b'_' || nat_eq (code c) b'.'
    then String.[]
    else String.◌∷◌ c (tool_namespace s)

unfoldable pub begins_with : String → String → Bool
begins_with String.[] s = true
begins_with (String.◌∷◌ c p) String.[] = false
begins_with (String.◌∷◌ c p) (String.◌∷◌ d s) = nat_eq (code c) (code d) && begins_with p s

-- `s.includes(p)`
unfoldable pub includes : String → String → Bool
includes p String.[] = begins_with p String.[]
includes p (String.◌∷◌ c s) = begins_with p (String.◌∷◌ c s) || includes p s

abbrev pub nonempty_token : String → List String → List String
nonempty_token String.[] rest = rest
nonempty_token (String.◌∷◌ c s) rest = String.◌∷◌ c s ∷ rest

-- `split` at the runs of other characters, less the empty tokens; `cur` is the token being read.
unfoldable pub tokens_from : (ℕ → Bool) → String → String → List String
tokens_from is_word cur String.[] = nonempty_token cur []
tokens_from is_word cur (String.◌∷◌ c s) =
    let longer = tokens_from is_word (cur <> String.◌∷◌ c String.[]) s in
    let closed = nonempty_token cur (tokens_from is_word "" s) in
    if is_word (code c) then longer else closed

-- `description.split("\n")[0]`
unfoldable pub until_newline : String → String
until_newline String.[] = String.[]
until_newline (String.◌∷◌ c s) =
    if nat_eq (code c) b'\n' then String.[] else String.◌∷◌ c (until_newline s)

unfoldable pub join : String → List String → String
join sep [] = ""
join sep (x ∷ []) = x
join sep (x ∷ y ∷ xs) = x <> sep <> join sep (y ∷ xs)

module _ (js : Runtime) where
  unfoldable pub matches_name_pattern : String → String → Bool
  unfolding glob
  matches_name_pattern name pattern' = glob js.fold pattern' name

  unfoldable pub select_by_patterns : List ToolDefinition → List String → List ToolDefinition
  select_by_patterns definitions patterns =
      keep (λ d. any (λ p. matches_name_pattern d.name p) patterns) definitions

  unfoldable pub tokenize : String → List String
  unfolding tokens_from
  tokenize query = tokens_from js.is_word "" (js.lower query)

  unfoldable pub haystack : ToolDefinition → String
  haystack d = js.lower (d.name <> " " <> d.description)

  unfoldable pub search_tokens : List String → List ToolDefinition → List ToolDefinition
  search_tokens [] definitions = definitions
  search_tokens (t ∷ ts) definitions =
      keep (λ d. all (λ token. includes token (haystack d)) (t ∷ ts)) definitions

  unfoldable pub search_definitions : List ToolDefinition → String → List ToolDefinition
  unfolding search_tokens
  search_definitions definitions query = search_tokens (tokenize query) definitions

  unfoldable pub first_line : String → String
  unfolding until_newline
  first_line description =
      let line = js.trim (until_newline description) in
      if ltb 200 (js.length16 line) then js.slice16 line 0 197 <> "..." else line

  unfoldable pub render_catalog_lines : List ToolDefinition → String
  unfolding join first_line
  render_catalog_lines [] = "No deferred tools are available."
  render_catalog_lines (d ∷ ds) =
      join "\n"
        (map (λ (x : ToolDefinition). "- " <> x.name <> ": " <> first_line x.description) (d ∷ ds))

  abbrev match_block : ToolDefinition → String
  match_block d = join "\n" (
      ("name: " <> d.name)
      ∷ ("description: " <> d.description)
      ∷ ("input schema: " <> d.input_schema)
      ∷ [])

  unfoldable pub render_matches : List ToolDefinition → String → String
  unfolding join
  render_matches [] query =
      "No deferred tool matches "
      <> js.stringify query
      <> ". Try a single keyword, or an empty query to list them all."
  render_matches (d ∷ ds) query =
      join "\n\n" (map match_block (d ∷ ds))
      <> "\n\nThese tools are now available; call one directly."
