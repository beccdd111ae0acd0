-- ===== src/ApproveCard/Tests.antt =====
-- A card of an approval that another person has decided.
use workbench.Prelude.{ℕ, ◌≡◌, refl, true, false, none, some}
use workbench.ApproveCard.{
  CardState, approved, ready, approve_card_view, live_view, is_terminal_status,
}
use workbench.ApproveCard.Buttons.{has_buttons}

abbrev decided : CardState ℕ
decided = record {
  wired = true;
  live = ready approved true 7;
  deciding = none;
  decision_error = none;
  resolved_elsewhere = some true;
}

no_buttons : has_buttons (approve_card_view decided) ≡ false
unfolding approve_card_view live_view is_terminal_status
no_buttons = refl
