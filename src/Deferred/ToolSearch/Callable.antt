-- ===== src/Deferred/ToolSearch/Callable.antt =====
-- What `tool_search` reports can be called on the next turn.
use workbench.Prelude.{
  ◌≡◌, refl, sym, ap, ◌∙◌, subst, String, Bool, true, false, List, [], ◌∷◌, if◌then◌else◌, keep,
  any, all, contains, arith, Bool-cases, inl, inr, ◌==◌, eq_iff,
}
use workbench.Deferred.Match.{
  Runtime, ToolDefinition, tool_namespace, tokenize, tokens_from, haystack, includes,
  search_definitions, search_tokens, render_catalog_lines, render_matches,
}
use workbench.Deferred.Selection.{Selection, names, namespaces_of, tools, surface}
use workbench.Deferred.Selection.Surfacing.{
  in_namespaces, hit_namespaces, contains-add_all, contains-tools-surface,
}
use workbench.Deferred.ToolSearch.{ToolResult, query_of, search, search_for, search_arguments}

keep-all : (ds : List ToolDefinition) → keep (λ d. true) ds ≡ ds
keep-all [] = refl
keep-all (d ∷ ds) = ap (λ l. d ∷ l) (keep-all ds)

module _ (js : Runtime) where
  abbrev is_hit : List String → ToolDefinition → Bool
  is_hit tokens d = all (λ token. includes token (haystack js d)) tokens

  search_tokens-keep :
      (tokens : List String) (ds : List ToolDefinition)
      → search_tokens js tokens ds ≡ keep (is_hit tokens) ds
  unfolding search_tokens
  search_tokens-keep [] ds = sym (keep-all ds)
  search_tokens-keep (t ∷ ts) ds = refl

all-covered :
    (namespaces : List String) (ds : List ToolDefinition)
    → ((m : String) → contains (namespaces_of ds) m ≡ true → contains namespaces m ≡ true)
    → all (λ d. contains namespaces (tool_namespace d.name)) ds ≡ true
unfolding contains
all-covered namespaces [] h = refl
all-covered namespaces (d ∷ ds) h = ground (
  arith,
  h (tool_namespace d.name),
  eq_iff (tool_namespace d.name) (tool_namespace d.name),
  all-covered namespaces ds (λ m k. h m (ground (arith, k))),
)

any-hit :
    (namespaces : List String) (p : ToolDefinition → Bool) (ds : List ToolDefinition) (n : String)
    → all (λ d. contains namespaces (tool_namespace d.name)) (keep p ds) ≡ true
    → contains (names (keep p ds)) n ≡ true
    → any (in_namespaces namespaces n) ds ≡ true
unfolding contains
any-hit namespaces p [] n h k = k
any-hit namespaces p (d ∷ ds) n h k = ground (arith, any-hit namespaces p ds n)

module _ (js : Runtime) where
  search_definitions-keep :
      (ds : List ToolDefinition) (query : String)
      → search_definitions js ds query ≡ keep (is_hit js (tokenize js query)) ds
  unfolding search_definitions
  search_definitions-keep ds query = search_tokens-keep js (tokenize js query) ds

  hit-covered :
      (ds : List ToolDefinition) (query m : String)
      → contains (namespaces_of (keep (is_hit js (tokenize js query)) ds)) m ≡ true
      → contains (hit_namespaces js ds query) m ≡ true
  unfolding contains
  hit-covered ds query m k =
      contains-add_all [] (namespaces_of (search_definitions js ds query)) m
      ∙ ap (λ l. contains (namespaces_of l) m) (search_definitions-keep ds query)
      ∙ k

  any-search :
      (ds : List ToolDefinition) (query n : String)
      → contains (names (search_definitions js ds query)) n ≡ true
      → any (in_namespaces (hit_namespaces js ds query) n) ds ≡ true
  any-search ds query n h =
      let hits = keep (is_hit js (tokenize js query)) ds in
      any-hit (hit_namespaces js ds query) (is_hit js (tokenize js query)) ds n
        (all-covered (hit_namespaces js ds query) hits (hit-covered ds query))
        (subst (λ l. contains (names l) n ≡ true) (search_definitions-keep ds query) h)

  search_definitions-same :
      (ds : List ToolDefinition) (q r : String)
      → tokenize js q ≡ tokenize js r
      → search_definitions js ds q ≡ search_definitions js ds r
  unfolding search_definitions
  search_definitions-same ds q r e = ap (λ ts. search_tokens js ts ds) e

  tokenize_blank : js.lower "" ≡ "" → tokenize js "" ≡ []
  unfolding tokenize tokens_from
  tokenize_blank e = rw e refl

  search_definitions_blank :
      (ds : List ToolDefinition) → js.lower "" ≡ "" → search_definitions js ds "" ≡ ds
  unfolding search_definitions search_tokens
  search_definitions_blank ds e = rw (tokenize_blank e) refl

  -- The answer to a query reports `ds`: all of them, one line each, where the query is blank, and
  -- their full definitions else.
  abbrev pub Reports : ToolResult → String → List ToolDefinition → Type 0
  Reports r query ds = r.content ≡ (
      if js.trim query == ""
      then render_catalog_lines js ds
      else render_matches js ds (js.trim query))

  search_for-content :
      (catalog ds : List ToolDefinition) (call_id q : String)
      → (q ≡ "" → ds ≡ catalog)
      → ds ≡ search_definitions js catalog q
      → (search_for js catalog call_id q).content
        ≡ (if q == "" then render_catalog_lines js ds else render_matches js ds q)
  unfolding search_for
  search_for-content catalog ds call_id q blank other = elim (Bool-cases (q == "")) [
    | inl e ↦ rw e (rw (blank ((eq_iff q "").0 e)) refl)
    | inr e ↦ rw e (rw other refl)
  ]

  search_for-is_error :
      (catalog : List ToolDefinition) (call_id q : String)
      → (search_for js catalog call_id q).is_error ≡ false
  unfolding search_for
  search_for-is_error catalog call_id q = ground arith

  -- A query is answered without an error, the answer reports the definitions of the published
  -- catalogue that the same query finds for the director, and a tool of the name of any of those
  -- is among the tools of the next turn. The hypotheses: `trim` takes no token from the query, and
  -- the lower case of the empty text is empty.
  pub reported-callable :
      (s : Selection) (call_id query n : String)
      → tokenize js (js.trim query) ≡ tokenize js query
      → js.lower "" ≡ ""
      → contains (names (search_definitions js s.deferred query)) n ≡ true
      → Reports
          (search js s.deferred (record { id = call_id; arguments = query_of query }))
          query
          (search_definitions js s.deferred query)
        × ((search js s.deferred (record { id = call_id; arguments = query_of query })).is_error
            ≡ false)
        × (contains (names (tools (surface js s query))) n ≡ true)
  unfolding search search_arguments
  reported-callable s call_id query n same lower h = (
    search_for-content s.deferred (search_definitions js s.deferred query) call_id (js.trim query)
        (λ e.
          search_definitions-same s.deferred query "" (sym same ∙ ap (tokenize js) e)
          ∙ search_definitions_blank s.deferred lower)
        (search_definitions-same s.deferred query (js.trim query) (sym same)),
    search_for-is_error s.deferred call_id (js.trim query),
    grind (arith, contains-tools-surface js s query n, any-search s.deferred query n h),
  )
