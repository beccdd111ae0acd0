-- ===== src/Inference.antt =====
-- The rows of the inference settings (apps/web/src/settings/inference/effective-list.ts), and which
-- offerings are safe to show (apps/web/src/settings/inference/model-capability.ts). The tests of
-- regular expressions and the case mapping are the parameter `Names`.
pub mod Priorities
pub mod Rows
mod Candidates
mod Chosen
pub mod Route
mod Tests
use workbench.Prelude.{
  ℕ, ℤ, String, ◌==◌, Bool, true, false, not, ◌&&◌, ◌||◌, Option, none, some, or_else, List, [],
  ◌∷◌, ◌++◌, keep, length, contains, nat_eq, int_lt, Dict, lookup, insert, if◌then◌else◌,
}
use workbench.Deferred.Match.{includes}

-- What the JavaScript runtime answers about a name.
pub record Names : Type 0 where
  pub lower : String → String
  pub embedding : String → Bool  -- EMBEDDING_MODEL_NAME_PATTERN.test
  pub hub_path : String → Bool  -- HUGGING_FACE_OR_GGUF_NAME_PATTERN.test

pub record Offering : Type 0 where
  pub offering_id : String
  pub provider_id : String
  pub provider_name : String
  pub plugin : String
  pub priority : ℤ
  pub capabilities : List String

pub record ModelInfo : Type 0 where
  pub id : String
  pub canonical_name : String
  pub display_name : Option String
  pub offerings : List Offering

pub data Provenance : Type 0 where
  set_here inherited : Provenance

pub record Row : Type 0 where
  pub offering_id : String
  pub model_id : String
  pub canonical_name : String
  pub model_display_name : Option String
  pub provider_id : String
  pub provider_name : String
  pub plugin : String
  pub priority : ℤ
  pub provenance : Provenance

pub record Candidate : Type 0 where
  pub canonical_name : String
  pub display_name : Option String
  pub priority : ℤ
  pub capabilities : List String

-- The loop of `defaultModelForProvider` over the candidates that it prefers.
unfoldable pub best_of : Option Candidate → List Candidate → Option Candidate
best_of best [] = best
best_of none (c ∷ cs) = best_of (some c) cs
best_of (some b) (c ∷ cs) = best_of (some (if int_lt c.priority b.priority then c else b)) cs

abbrev pub candidate_of : ModelInfo → Offering → Candidate
candidate_of m o = record {
  canonical_name = m.canonical_name;
  display_name = m.display_name;
  priority = o.priority;
  capabilities = o.capabilities;
}

-- The inner loop over one model's offerings.
unfoldable pub model_candidates : String → ModelInfo → List Offering → List Candidate
model_candidates provider m [] = []
model_candidates provider m (o ∷ os) =
    let rest = model_candidates provider m os in
    if not (o.provider_name == provider) then rest else candidate_of m o ∷ rest

unfoldable pub candidates : String → List ModelInfo → List Candidate
unfolding model_candidates
candidates provider [] = []
candidates provider (m ∷ ms) = model_candidates provider m m.offerings ++ candidates provider ms

abbrev pub row_of : List String → ModelInfo → Offering → Row
row_of own m o = record {
  offering_id = o.offering_id;
  model_id = m.id;
  canonical_name = m.canonical_name;
  model_display_name = m.display_name;
  provider_id = o.provider_id;
  provider_name = o.provider_name;
  plugin = o.plugin;
  priority = o.priority;
  provenance = if contains own o.offering_id then set_here else inherited;
}

unfoldable pub model_rows : List String → ModelInfo → List Offering → List Row
model_rows own m [] = []
model_rows own m (o ∷ os) = row_of own m o ∷ model_rows own m os

unfoldable pub rows_of : List String → List ModelInfo → List Row
unfolding model_rows
rows_of own [] = []
rows_of own (m ∷ ms) = model_rows own m m.offerings ++ rows_of own ms

abbrev pub rows_under : Option (List Row) → Row → List Row
rows_under none r = r ∷ []
rows_under (some existing) r = existing ++ r ∷ []

-- The loop of `rowsByModel`.
unfoldable pub group_rows : Dict (List Row) → List Row → Dict (List Row)
group_rows m [] = m
group_rows m (r ∷ rs) = group_rows (insert r.model_id (rows_under (lookup r.model_id m) r) m) rs

unfoldable pub rows_by_model : List Row → Dict (List Row)
unfolding group_rows
rows_by_model rows = group_rows [] rows

-- `PROVIDER_DISPLAY_NAMES`
abbrev pub provider_display_names : Dict String
provider_display_names =
    ("anthropic", "Anthropic")
    ∷ ("openai", "OpenAI")
    ∷ ("google-genai", "Google")
    ∷ ("xai", "xAI")
    ∷ ("xai-oauth", "xAI (Grok OAuth)")
    ∷ ("codex", "Codex")
    ∷ ("openrouter", "OpenRouter")
    ∷ ("opencode-zen", "Opencode Zen")
    ∷ ("groq", "Groq")
    ∷ ("deepseek", "DeepSeek")
    ∷ ("mistral", "Mistral")
    ∷ ("huggingface", "Hugging Face")
    ∷ ("ollama", "Ollama (local)")
    ∷ []

unfoldable pub provider_display_name : String → String
provider_display_name name = or_else (lookup name provider_display_names) name

abbrev pub is_empty {ℓ} : {A : Type ℓ} → List A → Bool
is_empty [] = true
is_empty (x ∷ xs) = false

module _ (js : Names) where
  unfoldable pub is_gguf_or_hub_path : String → Bool
  is_gguf_or_hub_path name = includes ".gguf" (js.lower name) || js.hub_path name

  unfoldable pub is_chat_picker_model_name : String → Bool
  unfolding is_gguf_or_hub_path
  is_chat_picker_model_name name = not (is_gguf_or_hub_path name) && not (js.embedding name)

  unfoldable pub is_completion_capable : List String → String → Bool
  unfolding is_gguf_or_hub_path
  is_completion_capable capabilities name =
      if is_gguf_or_hub_path name
      then false
      else if not (is_empty capabilities)
      then contains capabilities "plain-text"
      else not (js.embedding name)

  unfoldable pub prefer_completion_capable {ℓ} :
      {A : Type ℓ} → List A → (A → List String) → (A → String) → List A
  prefer_completion_capable offerings capabilities_of name_of =
      keep (λ o. is_completion_capable (capabilities_of o) (name_of o)) offerings

  unfoldable pub default_model_for_provider : List ModelInfo → String → Option Candidate
  unfolding best_of candidates
  default_model_for_provider models provider = best_of none (
      prefer_completion_capable (candidates provider models) (λ c. c.capabilities)
        (λ c. c.canonical_name))

  abbrev capable_offerings : ModelInfo → List Offering
  capable_offerings m =
      prefer_completion_capable m.offerings (λ o. o.capabilities) (λ o. m.canonical_name)

  -- The loop of `chatCapableModels`.
  unfoldable pub chat_capable_models : List ModelInfo → List ModelInfo
  chat_capable_models [] = []
  chat_capable_models (m ∷ ms) =
      let rest = chat_capable_models ms in
      let offerings = capable_offerings m in
      if nat_eq (length offerings) 0
      then rest
      else if nat_eq (length offerings) (length m.offerings)
      then m ∷ rest
      else record m { offerings = offerings } ∷ rest

  unfoldable pub effective_inference_rows : List ModelInfo → List String → List Row
  unfolding rows_of chat_capable_models
  effective_inference_rows models own = rows_of own (chat_capable_models models)
