-- ===== src/Inference/Tests.antt =====
-- Runs of the inference settings.
use workbench.Prelude.{
  ℕ, ℤ, pos, int_le, true, ◌≡◌, ◌⊎◌, refl, String, false, none, some, List, [], ◌∷◌, lookup, add,
  add_all, contains,
}
use workbench.Inference.{
  provider_display_name, Names, ModelInfo, Offering, Candidate, Row, set_here,
  default_model_for_provider,
}
use workbench.Inference.Candidates.{IsOffered}
use workbench.Inference.Chosen.{default_model_for_provider-cases}
use workbench.Inference.Priorities.{
  up, pair_priorities, reorder_patches, swap_patches, patch_pair, row_before, make_default_patches,
  patches_for, undercut, least_priority,
}
use workbench.Inference.Priorities.Swap.{IsSwap, reorder_patches-IsSwap}
use workbench.Inference.Priorities.Default.{IsDefault, make_default_patches-IsDefault}
use workbench.Inference.Route.{
  same, Destination, ordered_rows, place, compare_rows, route_patches, move_row, moved, find_index,
  destination, remove_at, insert_at, numbered,
}

abbrev row : String → ℕ → Row
row id n = record {
  offering_id = id;
  model_id = "m";
  canonical_name = "model";
  model_display_name = none;
  provider_id = "p";
  provider_name = "provider";
  plugin = "plugin";
  priority = pos n;
  provenance = set_here;
}

abbrev tied : List Row
tied = row "a" 0 ∷ row "b" 0 ∷ row "c" 0 ∷ []

abbrev no_names : Names
no_names = record { lower = λ s. s; embedding = λ s. false; hub_path = λ s. false }

abbrev offering : String → ℕ → Offering
offering id n = record {
  offering_id = id;
  provider_id = "p";
  provider_name = "provider";
  plugin = "plugin";
  priority = pos n;
  capabilities = "plain-text" ∷ [];
}

abbrev models : List ModelInfo
models =
    record {
      id = "m";
      canonical_name = "model";
      display_name = none;
      offerings = offering "a" 4 ∷ offering "b" 2 ∷ [];
    }
    ∷ []

-- Of three tied rows the second is moved up: the third keeps the priority 0, and so comes before
-- the first one, which is given the priority 1.
tied_route :
    route_patches (λ s t. same) tied "b" Destination.up
    ≡ some (
        record { offering_id = "b"; priority = pos 0 }
        ∷ record { offering_id = "a"; priority = pos 1 }
        ∷ [])
unfolding route_patches ordered_rows place compare_rows move_row moved find_index destination
    remove_at insert_at numbered least_priority add_all add contains
tied_route = refl

default_model_for_provider-cases_example :
    ((default_model_for_provider no_names models "provider" ≡ none)
      × ((x : Candidate) → ¬ IsOffered no_names "provider" models x))
    ⊎ ((x : Candidate) × (default_model_for_provider no_names models "provider" ≡ some x)
        × IsOffered no_names "provider" models x
        × ((y : Candidate)
            → IsOffered no_names "provider" models y
            → int_le x.priority y.priority ≡ true))
default_model_for_provider-cases_example =
    default_model_for_provider-cases no_names models "provider"

reorder_patches-IsSwap_example :
    IsSwap tied 1
      (record { offering_id = "c"; priority = pos 1 })
      (record { offering_id = "b"; priority = pos 2 })
unfolding reorder_patches swap_patches patch_pair pair_priorities row_before
reorder_patches-IsSwap_example =
    reorder_patches-IsSwap tied 2 up (record { offering_id = "c"; priority = pos 1 })
      (record { offering_id = "b"; priority = pos 2 }) refl

make_default_patches-IsDefault_example :
    IsDefault tied "b" (record { offering_id = "b"; priority = ℤ.negsuc 0 } ∷ [])
unfolding make_default_patches patches_for undercut least_priority
make_default_patches-IsDefault_example =
    make_default_patches-IsDefault tied "b"
      (record { offering_id = "b"; priority = ℤ.negsuc 0 } ∷ []) refl

slug_shown : provider_display_name "ollama" ≡ "Ollama (local)"
unfolding provider_display_name lookup
slug_shown = refl
