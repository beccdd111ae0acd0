-- ===== src/Deferred/Selection/Prefixes.antt =====
-- The tools that are sent only grow at the end.
use workbench.Prelude.{
  ◌≡◌, refl, sym, ap, ◌∙◌, String, Option, none, some, List, [], ◌∷◌, ◌++◌, append_assoc,
  append-nil, Dict, lookup, contains, add, Bool-cases, inl, inr, ◌==◌, or_else,
}
use workbench.Deferred.Match.{Runtime, ToolDefinition, tool_namespace}
use workbench.Deferred.Selection.{
  Selection, Event, Block, tool_call, other_block, inference_done, other_event, tool_search_name,
  push_found, surfaced_tools, by_name, tools, surface_namespaces, surface, surface_block,
  surface_blocks, surface_from_event, decide,
}

-- `xs` is the beginning of `ys`.
abbrev pub Begins {ℓ} : {A : Type ℓ} → List A → List A → Type ℓ
Begins {A} xs ys = (rest : List A) × (ys ≡ xs ++ rest)

Begins-refl {ℓ} : {A : Type ℓ} (xs : List A) → Begins xs xs
Begins-refl xs = ([], sym (append-nil xs))

Begins-trans {ℓ} : {A : Type ℓ} (xs ys zs : List A) → Begins xs ys → Begins ys zs → Begins xs zs
Begins-trans xs ys zs (r, e) (q, f) = (r ++ q, f ∙ ap (λ l. l ++ q) e ∙ append_assoc xs r q)

Begins-add : (xs : List String) (a : String) → Begins xs (add xs a)
unfolding add
Begins-add xs a = elim (Bool-cases (contains xs a)) [
  | inl old ↦ rw old (Begins-refl xs)
  | inr new ↦ rw new (a ∷ [], refl)
]

surface_namespaces-Begins :
    (namespaces : List String) (ds : List ToolDefinition) (surfaced : List String)
    → Begins surfaced (surface_namespaces namespaces ds surfaced)
unfolding surface_namespaces
surface_namespaces-Begins namespaces [] surfaced = Begins-refl surfaced
surface_namespaces-Begins namespaces (d ∷ ds) surfaced =
    elim (Bool-cases (contains namespaces (tool_namespace d.name))) [
      | inl hit ↦ rw hit (
          Begins-trans surfaced (add surfaced d.name) _ (Begins-add surfaced d.name)
            (surface_namespaces-Begins namespaces ds (add surfaced d.name)))
      | inr miss ↦ rw miss (surface_namespaces-Begins namespaces ds surfaced)
    ]

push_found-append :
    (o : Option ToolDefinition) (xs ys : List ToolDefinition)
    → push_found o (xs ++ ys) ≡ push_found o xs ++ ys
push_found-append none xs ys = refl
push_found-append (some d) xs ys = refl

surfaced_tools-append :
    (m : Dict ToolDefinition) (xs ys : List String)
    → surfaced_tools m (xs ++ ys) ≡ surfaced_tools m xs ++ surfaced_tools m ys
unfolding surfaced_tools
surfaced_tools-append m [] ys = refl
surfaced_tools-append m (x ∷ xs) ys =
    ap (push_found (lookup x m)) (surfaced_tools-append m xs ys)
    ∙ push_found-append (lookup x m) (surfaced_tools m xs) (surfaced_tools m ys)

-- A selection with the same tools and more names surfaced at the end.
pub record Grows (s u : Selection) : Type 0 where
  pub same_deferred : u.deferred ≡ s.deferred
  pub same_always : u.always ≡ s.always
  pub longer : Begins s.surfaced u.surfaced

Grows-refl : (s : Selection) → Grows s s
Grows-refl s = record { same_deferred = refl; same_always = refl; longer = Begins-refl s.surfaced }

Grows-trans : (s t u : Selection) → Grows s t → Grows t u → Grows s u
Grows-trans s t u g h = record {
  same_deferred = h.same_deferred ∙ g.same_deferred;
  same_always = h.same_always ∙ g.same_always;
  longer = Begins-trans s.surfaced t.surfaced u.surfaced g.longer h.longer;
}

tools-Begins : (s u : Selection) → Grows s u → Begins (tools s) (tools u)
unfolding tools
tools-Begins s u g = (
  surfaced_tools (by_name [] s.deferred) g.longer.0,
  simp (g.same_always, g.same_deferred, g.longer.1, surfaced_tools-append, append_assoc),
)

module _ (js : Runtime) where
  surface-Grows : (s : Selection) (query : String) → Grows s (surface js s query)
  unfolding surface
  surface-Grows s query = record {
    same_deferred = refl;
    same_always = refl;
    longer = surface_namespaces-Begins _ s.deferred s.surfaced;
  }

  surface_block-Grows : (s : Selection) (b : Block) → Grows s (surface_block js s b)
  unfolding surface_block
  surface_block-Grows s other_block = Grows-refl s
  surface_block-Grows s (tool_call name query) = elim (Bool-cases (name == tool_search_name)) [
    | inl e ↦ rw e (surface-Grows s (or_else query ""))
    | inr e ↦ rw e (Grows-refl s)
  ]

  surface_blocks-Grows : (s : Selection) (bs : List Block) → Grows s (surface_blocks js s bs)
  unfolding surface_blocks
  surface_blocks-Grows s [] = Grows-refl s
  surface_blocks-Grows s (b ∷ bs) =
      Grows-trans s (surface_block js s b) _ (surface_block-Grows s b)
        (surface_blocks-Grows (surface_block js s b) bs)

  surface_from_event-Grows : (s : Selection) (e : Event) → Grows s (surface_from_event js e s)
  unfolding surface_from_event
  surface_from_event-Grows s other_event = Grows-refl s
  surface_from_event-Grows s (inference_done bs) = surface_blocks-Grows s bs

  -- The selection after the director has decided on some events, in order.
  unfoldable pub after_events : Selection → List Event → Selection
  after_events s [] = s
  after_events s (e ∷ es) = after_events (decide js e s).0 es

  pub after_events-Grows : (s : Selection) (es : List Event) → Grows s (after_events s es)
  unfolding after_events decide
  after_events-Grows s [] = Grows-refl s
  after_events-Grows s (e ∷ es) =
      Grows-trans s (surface_from_event js e s) _ (surface_from_event-Grows s e)
        (after_events-Grows (surface_from_event js e s) es)

  -- Whatever events the director decides on, the tools that an inference was sent before are the
  -- beginning of the tools that it is sent after: none is dropped, moved or replaced.
  pub tools-after_events :
      (s : Selection) (es : List Event) → Begins (tools s) (tools (after_events s es))
  tools-after_events s es = tools-Begins s (after_events s es) (after_events-Grows s es)
