-- ===== src/Deferred/Selection/Surfacing.antt =====
-- What a search surfaces, and which tools are never held back.
use workbench.Prelude.{
  ◌≡◌, refl, ap, String, Bool, true, false, not, ◌&&◌, ◌||◌, some, List, [], ◌∷◌, ◌++◌, is_some,
  keep, any, Dict, lookup, insert, lookup-insert, contains, contains-append, add, add_all,
  contains-add, arith, Option-cases, inl, inr, ◌==◌, eq_iff,
}
use workbench.Deferred.Match.{
  Runtime, ToolDefinition, tool_namespace, matches_name_pattern, select_by_patterns,
  search_definitions,
}
use workbench.Deferred.Selection.{
  Selection, Event, DirectorConfig, names, namespaces_of, tool_search_name, tool_search_definition,
  push_found, surfaced_tools, by_name, tools, surface_namespaces, surface, new_selection,
}
use workbench.Deferred.Selection.Prefixes.{after_events, after_events-Grows}

-- The deferred tool of the name `n` has a namespace of the list.
abbrev pub in_namespaces : List String → String → ToolDefinition → Bool
in_namespaces namespaces n d = contains namespaces (tool_namespace d.name) && d.name == n

contains-surface_namespaces :
    (namespaces : List String) (ds : List ToolDefinition) (surfaced : List String) (n : String)
    → contains (surface_namespaces namespaces ds surfaced) n
      ≡ (contains surfaced n || any (in_namespaces namespaces n) ds)
unfolding surface_namespaces
contains-surface_namespaces namespaces [] surfaced n = ground arith
contains-surface_namespaces namespaces (d ∷ ds) surfaced n = ground (
  arith,
  contains-surface_namespaces namespaces ds (add surfaced d.name) n,
  contains-surface_namespaces namespaces ds surfaced n,
  contains-add surfaced d.name n,
)

-- The namespaces of the tools that a search finds.
abbrev pub hit_namespaces : Runtime → List ToolDefinition → String → List String
hit_namespaces js definitions query =
    add_all [] (namespaces_of (search_definitions js definitions query))

pub contains-add_all :
    (acc xs : List String) (n : String)
    → contains (add_all acc xs) n ≡ (contains acc n || contains xs n)
unfolding contains add_all
contains-add_all acc [] n = ground arith
contains-add_all acc (x ∷ xs) n =
    ground (arith, contains-add_all (add acc x) xs n, contains-add acc x n)

names-append : (xs ys : List ToolDefinition) → names (xs ++ ys) ≡ names xs ++ names ys
names-append [] ys = refl
names-append (x ∷ xs) ys = ap (λ l. x.name ∷ l) (names-append xs ys)

-- A filter by the name keeps a name or drops it.
contains-keep :
    (q : String → Bool) (ds : List ToolDefinition) (n : String)
    → contains (names (keep (λ d. q d.name) ds)) n ≡ (q n && contains (names ds) n)
unfolding contains
contains-keep q [] n = ground arith
contains-keep q (d ∷ ds) n = grind (arith, contains-keep q ds n, eq_iff d.name n)

-- Every entry of the map is filed under its definition's name.
IsNamed : Dict ToolDefinition → Type 0
IsNamed m = (k : String) (d : ToolDefinition) → lookup k m ≡ some d → d.name ≡ k

insert-IsNamed :
    (m : Dict ToolDefinition) (d : ToolDefinition) → IsNamed m → IsNamed (insert d.name d m)
unfolding IsNamed
insert-IsNamed m d h k c e = grind (arith, lookup-insert d.name k d m, eq_iff d.name k, h k c)

by_name-IsNamed :
    (m : Dict ToolDefinition) (ds : List ToolDefinition) → IsNamed m → IsNamed (by_name m ds)
unfolding by_name
by_name-IsNamed m [] h = h
by_name-IsNamed m (d ∷ ds) h = by_name-IsNamed (insert d.name d m) ds (insert-IsNamed m d h)

has-by_name :
    (m : Dict ToolDefinition) (ds : List ToolDefinition) (n : String)
    → is_some (lookup n (by_name m ds)) ≡ (is_some (lookup n m) || contains (names ds) n)
unfolding by_name contains
has-by_name m [] n = ground arith
has-by_name m (d ∷ ds) n =
    ground (arith, has-by_name (insert d.name d m) ds n, lookup-insert d.name n d m)

found-by_name :
    (ds : List ToolDefinition) (n : String)
    → is_some (lookup n (by_name [] ds)) ≡ contains (names ds) n
unfolding lookup
found-by_name ds n = has-by_name [] ds n

contains-push_found :
    (m : Dict ToolDefinition) (x n : String) (rest : List ToolDefinition)
    → IsNamed m
    → contains (names (push_found (lookup x m) rest)) n
      ≡ ((x == n && is_some (lookup n m)) || contains (names rest) n)
unfolding IsNamed contains
contains-push_found m x n rest h = elim (Option-cases (lookup x m)) [
  | inl e ↦ rw e (grind (arith, eq_iff x n))
  | inr (d, e) ↦ rw e (grind (arith, h x d e, eq_iff x n, eq_iff d.name n))
]

contains-surfaced_tools :
    (m : Dict ToolDefinition) (ns : List String) (n : String)
    → IsNamed m
    → contains (names (surfaced_tools m ns)) n ≡ (contains ns n && is_some (lookup n m))
unfolding surfaced_tools contains
contains-surfaced_tools m [] n h = refl
contains-surfaced_tools m (x ∷ xs) n h =
    ground
      (arith, contains-push_found m x n (surfaced_tools m xs) h, contains-surfaced_tools m xs n h)

empty-IsNamed : IsNamed []
unfolding IsNamed lookup
empty-IsNamed k d e = cc

-- The names that an inference is sent: those of the fixed block, and those that are surfaced and
-- deferred.
contains-tools :
    (s : Selection) (n : String)
    → contains (names (tools s)) n
      ≡ (contains (names s.always) n || (contains s.surfaced n && contains (names s.deferred) n))
unfolding tools
contains-tools s n =
    let m = by_name [] s.deferred in
    grind (
      arith,
      names-append s.always (surfaced_tools m s.surfaced),
      contains-append (names s.always) (names (surfaced_tools m s.surfaced)) n,
      contains-surfaced_tools m s.surfaced n (by_name-IsNamed [] s.deferred empty-IsNamed),
      found-by_name s.deferred n,
    )

any-in_namespaces :
    (namespaces : List String) (n : String) (ds : List ToolDefinition)
    → any (in_namespaces namespaces n) ds ≡ true
    → contains (names ds) n ≡ true
unfolding contains
any-in_namespaces namespaces n [] h = h
any-in_namespaces namespaces n (d ∷ ds) h = ground (arith, any-in_namespaces namespaces n ds)

-- The filter of the constructor.
abbrev is_fixed : List String → String → Bool
is_fixed deferred_names n = not (contains deferred_names n) && not (n == tool_search_name)

module _ (js : Runtime) where
  -- After a search, exactly the names that were surfaced before it and those of the deferred tools
  -- in the namespace of a tool that the search finds are surfaced.
  pub contains-surface :
      (s : Selection) (query n : String)
      → contains (surface js s query).surfaced n ≡ (
          contains s.surfaced n
          || any (in_namespaces (hit_namespaces js s.deferred query) n) s.deferred)
  unfolding surface
  contains-surface s query n =
      contains-surface_namespaces (hit_namespaces js s.deferred query) s.deferred s.surfaced n

  surface_same_always : (s : Selection) (query : String) → (surface js s query).always ≡ s.always
  unfolding surface
  surface_same_always s query = refl

  surface_same_deferred :
      (s : Selection) (query : String) → (surface js s query).deferred ≡ s.deferred
  unfolding surface
  surface_same_deferred s query = refl

  -- After a search, an inference is sent a tool of the name `n` exactly if the fixed block has one,
  -- or a deferred tool has the name and is surfaced already or in the namespace of a tool that the
  -- search finds.
  pub contains-tools-surface :
      (s : Selection) (query n : String)
      → contains (names (tools (surface js s query))) n ≡ (
          contains (names s.always) n
          || ((contains s.surfaced n && contains (names s.deferred) n)
              || any (in_namespaces (hit_namespaces js s.deferred query) n) s.deferred))
  contains-tools-surface s query n = grind (
    arith,
    contains-tools (surface js s query) n,
    contains-surface s query n,
    surface_same_always s query,
    surface_same_deferred s query,
    any-in_namespaces (hit_namespaces js s.deferred query) n s.deferred,
  )

  contains-select :
      (patterns : List String) (ds : List ToolDefinition) (n : String)
      → contains (names (select_by_patterns js ds patterns)) n
        ≡ (any (λ p. matches_name_pattern js n p) patterns && contains (names ds) n)
  unfolding select_by_patterns
  contains-select patterns ds n =
      contains-keep (λ m. any (λ p. matches_name_pattern js m p) patterns) ds n

  new_deferred :
      (ds : List ToolDefinition) (config : DirectorConfig)
      → (new_selection js ds config).deferred ≡ select_by_patterns js ds config.deferred
  unfolding new_selection
  new_deferred ds config = refl

  contains-always :
      (ds : List ToolDefinition) (config : DirectorConfig) (n : String)
      → contains (names (new_selection js ds config).always) n ≡ (
          tool_search_name == n
          || (not (any (λ p. matches_name_pattern js n p) config.deferred)
              && contains (names ds) n))
  unfolding new_selection contains
  contains-always ds config n =
      let deferred_names = add_all [] (names (select_by_patterns js ds config.deferred)) in
      let fixed = is_fixed deferred_names in
      grind (
        arith,
        names-append (keep (λ d. fixed d.name) ds) (tool_search_definition ∷ []),
        contains-append (names (keep (λ d. fixed d.name) ds)) (tool_search_name ∷ []) n,
        contains-keep fixed ds n,
        contains-add_all [] (names (select_by_patterns js ds config.deferred)) n,
        contains-select config.deferred ds n,
        eq_iff n tool_search_name,
        eq_iff tool_search_name n,
      )

  -- The selection made from the definitions, after some events.
  abbrev pub later : List ToolDefinition → DirectorConfig → List Event → Selection
  later ds config es = after_events js (new_selection js ds config) es

  -- Whatever events the director has decided on, an inference is sent a tool of a name exactly if
  -- it is `tool_search`, or a definition has it that matches no deferred pattern, or a definition
  -- has it that matches one and a search has surfaced it.
  pub contains-tools-later :
      (ds : List ToolDefinition) (config : DirectorConfig) (es : List Event) (n : String)
      → contains (names (tools (later ds config es))) n ≡ (
          tool_search_name == n
          || (contains (names ds) n
              && (not (any (λ p. matches_name_pattern js n p) config.deferred)
                  || contains (later ds config es).surfaced n)))
  contains-tools-later ds config es n =
      let g = after_events-Grows js (new_selection js ds config) es in
      grind (
        arith,
        contains-tools (later ds config es) n,
        g.same_always,
        g.same_deferred,
        contains-always ds config n,
        new_deferred ds config,
        contains-select config.deferred ds n,
      )

  -- Whatever events the director has decided on, a tool that matches no deferred pattern is sent
  -- with every inference.
  pub undeferred-stays :
      (ds : List ToolDefinition) (config : DirectorConfig) (es : List Event) (n : String)
      → contains (names ds) n ≡ true
      → any (λ p. matches_name_pattern js n p) config.deferred ≡ false
      → contains (names (tools (later ds config es))) n ≡ true
  undeferred-stays ds config es n h k = grind (arith, contains-tools-later ds config es n)
