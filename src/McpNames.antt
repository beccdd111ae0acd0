-- ===== src/McpNames.antt =====
-- The names suggested for MCP servers (apps/web/src/mcp-server-name.ts): read off what the server
-- reports or off the URL's host, and made different from the names that are taken. What the
-- JavaScript runtime does to texts and URLs is in the record `WebTexts`.
pub mod Fresh
mod Punycode
mod Tests
use workbench.McpNames.Punycode.{decode_punycode_label}
use workbench.Prelude.{
  ℕ, zero, suc, ◌≡◌, String, ◌==◌, ◌<>◌, Bool, true, false, not, ◌&&◌, ◌||◌, Option, none, some,
  or_else, List, [], ◌∷◌, map, contains, length, get_elem?, ltb, if◌then◌else◌,
}

pub record WebTexts : Type 0 where
  pub trim : String → String
  pub lower : String → String  -- `toLocaleLowerCase()`
  pub show : ℕ → String  -- `String(n)`
  pub first_units : ℕ → String → String  -- `.slice(0, n)`
  pub hostname : String → Option String  -- `new URL(text).hostname`
  pub strip_www : String → String  -- `.replace(/^www\\./i, "")`
  pub includes : String → String → Bool
  pub is_numeric : String → Bool  -- `/^[\\d.]+$/`
  pub split_dots : String → List String
  pub to_units : String → List ℕ  -- the UTF-16 code units
  pub from_units : List ℕ → String
  pub words : String → List String  -- the lower-case words that are not empty
  pub capitalize : String → String
  pub dashed : String → String  -- lower case, with dashes for what is no letter or digit
  pub lower-numbered :
      (base separator : String) (i j : ℕ)
      → lower (base <> separator <> show i) ≡ lower (base <> separator <> show j)
      → i ≡ j

pub record ServerInfo : Type 0 where
  pub name : Option String
  pub title : Option String

pub data NameSource : Type 0 where
  server url fallback : NameSource

pub record Suggestion : Type 0 where
  pub name : String
  pub source : NameSource

abbrev pub fallback_name : String
fallback_name = "MCP server"

abbrev pub max_name_length : ℕ
max_name_length = 60

abbrev pub generic_host_labels : List String
generic_host_labels =
    "api" ∷ "app" ∷ "apps" ∷ "gateway" ∷ "mcp" ∷ "proxy" ∷ "server" ∷ "servers" ∷ []

abbrev pub non_empty : String → Option String
non_empty s = if s == "" then none else some s

abbrev pub join_words : List String → String
join_words [] = ""
join_words (w ∷ []) = w
join_words (w ∷ v ∷ ws) = w <> " " <> join_words (v ∷ ws)

abbrev pub first_of : Option String → Option String → Option String
first_of none o = o
first_of (some s) o = some s

abbrev pub sourced : NameSource → Option String → Option Suggestion
sourced source none = none
sourced source (some name) = some (record { name = name; source = source })

abbrev pub base_name : Option String → Option String → String × NameSource
base_name (some reported) from_url = (reported, server)
base_name none (some read) = (read, url)
base_name none none = (fallback_name, fallback)

module _ (texts : WebTexts) where
  unfoldable pub clean_candidate : String → Option String
  clean_candidate value =
      non_empty ((texts.trim) ((texts.first_units) max_name_length ((texts.trim) value)))

  abbrev pub label_of : List String → String
  label_of labels =
      let first = or_else (get_elem? labels 0) "" in
      if contains generic_host_labels ((texts.lower) first) && ltb 1 (length labels)
      then or_else (get_elem? labels 1) first
      else first

  unfoldable pub distinctive_host_label : String → Option String
  distinctive_host_label hostname =
      let bare = (texts.strip_www) hostname in
      if bare == ""
      then none
      else if bare == "[::1]" || bare == "::1"
      then some "localhost"
      else if not ((texts.includes) bare ".")
          || (texts.is_numeric) bare
          || (texts.includes) bare ":"
      then some bare
      else some (label_of ((texts.split_dots) bare))

  abbrev pub humanized : List String → Option String
  humanized [] = none
  humanized (w ∷ ws) = some (join_words (map (texts.capitalize) (w ∷ ws)))

  unfoldable pub humanize_host_label : String → Option String
  humanize_host_label label =
      humanized
        ((texts.words) ((texts.from_units) (decode_punycode_label ((texts.to_units) label))))

  abbrev pub name_of_label : Option String → Option String
  name_of_label none = none
  name_of_label (some label) =
      if (texts.is_numeric) label || (texts.includes) label ":"
      then some label
      else humanize_host_label label

  abbrev pub host_label : Option String → Option String
  host_label none = none
  host_label (some hostname) = distinctive_host_label hostname

  unfoldable pub display_name_from_url : String → Option String
  unfolding distinctive_host_label humanize_host_label
  display_name_from_url link =
      let trimmed = (texts.trim) link in
      if trimmed == "" then none else name_of_label (host_label ((texts.hostname) trimmed))

  abbrev pub slug_of_label : Option String → Option String
  slug_of_label none = none
  slug_of_label (some label) = non_empty ((texts.dashed) label)

  unfoldable pub handle_from_url : String → Option String
  unfolding distinctive_host_label
  handle_from_url link =
      let trimmed = (texts.trim) link in
      if trimmed == "" then none else slug_of_label (host_label ((texts.hostname) trimmed))

  abbrev pub taken_names : List String → List String
  taken_names existing = map (λ name. (texts.lower) ((texts.trim) name)) existing

  abbrev pub with_number : String → String → ℕ → String
  with_number separator base n = base <> separator <> (texts.show) n

  -- The loop: the first number from `next` on whose name is free; `none` is out of fuel.
  unfoldable pub first_free : List String → String → String → ℕ → ℕ → Option ℕ
  first_free taken separator base zero next = none
  first_free taken separator base (suc fuel) next =
      let later = first_free taken separator base fuel (suc next) in
      if contains taken ((texts.lower) (with_number separator base next)) then later else some next

  abbrev pub free_name : String → String → Option ℕ → Option String
  free_name separator base none = none
  free_name separator base (some n) = some (with_number separator base n)

  -- `dedupeMcpName` with a space, `dedupeMcpHandle` with a dash.
  unfoldable pub dedupe : String → ℕ → String → List String → Option String
  unfolding first_free
  dedupe separator fuel base existing =
      if not (contains (taken_names existing) ((texts.lower) base))
      then some base
      else free_name separator base (first_free (taken_names existing) separator base fuel 2)

  unfoldable pub dedupe_mcp_name : ℕ → String → List String → Option String
  unfolding dedupe
  dedupe_mcp_name fuel base existing = dedupe " " fuel base existing

  unfoldable pub dedupe_mcp_handle : ℕ → String → List String → Option String
  unfolding dedupe
  dedupe_mcp_handle fuel base existing = dedupe "-" fuel base existing

  abbrev pub clean_optional : Option String → Option String
  clean_optional none = none
  clean_optional (some s) = clean_candidate s

  -- on the server's information, if it has that shape
  unfoldable pub server_reported_name : Option ServerInfo → Option String
  unfolding clean_candidate
  server_reported_name none = none
  server_reported_name (some info) = first_of (clean_optional info.title) (clean_optional info.name)

  abbrev pub redirected : ℕ → List String → Option String → Option String
  redirected fuel existing none = none
  redirected fuel existing (some extracted) = dedupe_mcp_name fuel extracted existing

  unfoldable pub redirect_url_name : ℕ → String → List String → Option String
  unfolding display_name_from_url
  redirect_url_name fuel typed existing = redirected fuel existing (display_name_from_url typed)

  abbrev pub suggested : ℕ → List String → String × NameSource → Option Suggestion
  suggested fuel existing (base, source) = sourced source (dedupe_mcp_name fuel base existing)

  unfoldable pub suggest_mcp_server_name :
      ℕ → String → Option ServerInfo → List String → Option Suggestion
  unfolding server_reported_name display_name_from_url
  suggest_mcp_server_name fuel link info existing =
      suggested fuel existing (base_name (server_reported_name info) (display_name_from_url link))
