-- ===== src/Worker/HeldBack.antt =====
-- The tools of an MCP server are held back until a search surfaces them.
use Prim.Native.Char.{Char, code}
use text.Mathlib.TextLemmas.{nil-append, cons-append}
use workbench.Prelude.{
  ℕ, ◌≡◌, refl, ap, ◌∙◌, inl, inr, String, ◌==◌, ◌<>◌, eq_iff, Bool, true, false, not, ◌||◌, ◌&&◌,
  List, [], ◌∷◌, ◌++◌, map, any, contains, Bool-cases, arith, nat_eq,
}
use workbench.Deferred.Match.{Runtime, ToolDefinition, ends_line, matches_name_pattern}
use workbench.Deferred.Globs.{Matches, at_end, char, star_done, star_more, matches_name_pattern_iff}
use workbench.Deferred.Selection.{Event, names, tools, tool_search_name}
use workbench.Deferred.Selection.Surfacing.{later, contains-tools-later}
use workbench.Worker.{mcp_tool_name_pattern, worker_director_ref, WorkerToolNames}

-- No line ends in the text
unfoldable pub is_one_line : String → Bool
unfolding ends_line
is_one_line String.[] = true
is_one_line (String.◌∷◌ c s) = not (ends_line (code c)) && is_one_line s

module _ (fold : ℕ → ℕ) where
  Matches-star : (s : String) → is_one_line s ≡ true → Matches fold "*" s
  unfolding is_one_line
  Matches-star String.[] h = star_done refl at_end
  Matches-star (String.◌∷◌ c s) h =
      star_more refl (ground (arith, h)) (Matches-star s (ground (arith, h)))

  -- A star of a text matches itself, and any other character itself.
  Matches-self :
      (c : Char) (p s : String)
      → ends_line (code c) ≡ false
      → Matches fold p s
      → Matches fold (String.◌∷◌ c p) (String.◌∷◌ c s)
  Matches-self c p s inside m = elim (Bool-cases (nat_eq (code c) b'*')) [
    | inl star ↦ star_more (ground (arith, star)) inside (star_done (ground (arith, star)) m)
    | inr plain ↦ char (ground (arith, plain)) refl m
  ]

  Matches-after :
      (a p s : String) → is_one_line a ≡ true → Matches fold p s → Matches fold (a <> p) (a <> s)
  unfolding is_one_line
  Matches-after String.[] p s h m = rw (nil-append p, nil-append s) m
  Matches-after (String.◌∷◌ c a) p s h m =
      rw (cons-append c a p, cons-append c a s)
        (Matches-self c _ _ (ground (arith, h)) (Matches-after a p s (ground (arith, h)) m))

-- The name of a server's tool: the handle, a dot, and the tool's own name
abbrev pub server_tool : String → String → String
server_tool handle tool = handle <> "." <> tool

matches-server_tool :
    (js : Runtime) (handle tool : String)
    → is_one_line handle ≡ true
    → is_one_line tool ≡ true
    → matches_name_pattern js (server_tool handle tool) (mcp_tool_name_pattern handle) ≡ true
unfolding mcp_tool_name_pattern is_one_line ends_line
matches-server_tool js handle tool h k =
    (matches_name_pattern_iff js (server_tool handle tool) (handle <> ".*")).1 (
      Matches-after js.fold handle ".*" ("." <> tool) h
        (Matches-after js.fold "." "*" tool refl (Matches-star js.fold tool k)))

any-append : (p : String → Bool) (xs ys : List String) → any p ys ≡ true → any p (xs ++ ys) ≡ true
any-append p [] ys h = h
any-append p (x ∷ xs) ys h = ground (arith, any-append p xs ys h)

any-server :
    (p : String → Bool) (handles : List String) (handle : String)
    → contains handles handle ≡ true
    → p (mcp_tool_name_pattern handle) ≡ true
    → any p (map mcp_tool_name_pattern handles) ≡ true
unfolding contains
any-server p [] handle h k = absurd cc
any-server p (j ∷ handles) handle h k = elim (Bool-cases (j == handle)) [
  | inl e ↦ rw ((eq_iff j handle).0 e, k) (ground arith)
  | inr e ↦ ground (arith, any-server p handles handle (ground (arith, h, e)) k)
]

any-director :
    (js : Runtime) (tool_names : WorkerToolNames) (handles : List String) (handle tool : String)
    → contains handles handle ≡ true
    → is_one_line handle ≡ true
    → is_one_line tool ≡ true
    → any
        (λ p. matches_name_pattern js (server_tool handle tool) p)
        (worker_director_ref tool_names handles).deferred
      ≡ true
unfolding worker_director_ref
any-director js tool_names handles handle tool known h k =
    any-append (λ p. matches_name_pattern js (server_tool handle tool) p) tool_names.deferred _
      (any-server (λ p. matches_name_pattern js (server_tool handle tool) p) handles handle known
        (matches-server_tool js handle tool h k))

unfoldable pub has_dot : String → Bool
has_dot String.[] = false
has_dot (String.◌∷◌ c s) = nat_eq (code c) b'.' || has_dot s

has_dot-server_tool : (handle tool : String) → has_dot (server_tool handle tool) ≡ true
unfolding has_dot
has_dot-server_tool String.[] tool =
    rw (nil-append ("." <> tool)) (rw (cons-append "." "" tool) refl)
has_dot-server_tool (String.◌∷◌ c handle) tool =
    rw (cons-append c handle ("." <> tool)) (ground (arith, has_dot-server_tool handle tool))

not_search : (handle tool : String) → (tool_search_name == server_tool handle tool) ≡ false
unfolding has_dot
not_search handle tool = elim (Bool-cases (tool_search_name == server_tool handle tool)) [
  | inl e ↦ absurd (
      cc (
        ap has_dot ((eq_iff tool_search_name (server_tool handle tool)).0 e)
        ∙ has_dot-server_tool handle tool))
  | inr e ↦ e
]

-- Take a worker with a server of the handle, and a tool name, with no line end in either. Whatever events
-- the worker's director has decided on, an inference is sent the tool of that name behind the handle and a
-- dot exactly if the agent defines it and a search has surfaced it.
pub contains-tools-server_tool :
    (js : Runtime) (ds : List ToolDefinition) (tool_names : WorkerToolNames) (handles : List String)
    (es : List Event) (handle tool : String)
    → contains handles handle ≡ true
    → is_one_line handle ≡ true
    → is_one_line tool ≡ true
    → contains
        (names (tools (later js ds (worker_director_ref tool_names handles) es)))
        (server_tool handle tool)
      ≡ (contains (names ds) (server_tool handle tool)
          && contains
              (later js ds (worker_director_ref tool_names handles) es).surfaced
              (server_tool handle tool))
contains-tools-server_tool js ds tool_names handles es handle tool known h k =
    contains-tools-later js ds (worker_director_ref tool_names handles) es (server_tool handle tool)
    ∙ rw (any-director js tool_names handles handle tool known h k, not_search handle tool)
        (ground arith)
