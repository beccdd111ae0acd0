-- ===== src/ApproveCard/Buttons.antt =====
-- When a card has buttons, and when it shows an outcome.
use workbench.Prelude.{◌≡◌, refl, Bool, true, false, not, ◌&&◌, Bool-cases, inl, inr}
use workbench.ApproveCard.{
  LiveStatus, pending, approved, rejected, timeout, expired, StatusQuery, loading, ready, forbidden,
  not_found, error, CardView, unwired, view_loading, actionable, spectator, undetermined, resolved,
  view_not_found, load_error, CardState, is_terminal_status, live_view, approve_card_view,
}

abbrev pub is_pending : LiveStatus → Bool
is_pending pending = true
is_pending approved = false
is_pending rejected = false
is_pending timeout = false
is_pending expired = false

module _ {Detail : Type 0} where
  -- The views with the buttons.
  abbrev pub has_buttons : CardView Detail → Bool
  has_buttons unwired = false
  has_buttons view_loading = false
  has_buttons (actionable d x e) = true
  has_buttons (spectator status d) = false
  has_buttons (undetermined x e) = true
  has_buttons (resolved status d b) = false
  has_buttons view_not_found = false
  has_buttons (load_error message) = false

  abbrev pub shows_outcome : CardView Detail → Bool
  shows_outcome unwired = false
  shows_outcome view_loading = false
  shows_outcome (actionable d x e) = false
  shows_outcome (spectator status d) = false
  shows_outcome (undetermined x e) = false
  shows_outcome (resolved status d b) = true
  shows_outcome view_not_found = false
  shows_outcome (load_error message) = false

  -- The live query leaves a decision to the viewer, or does not say.
  abbrev pub may_decide : StatusQuery Detail → Bool
  may_decide loading = false
  may_decide (ready status can_act d) = is_pending status && can_act
  may_decide forbidden = true
  may_decide not_found = false
  may_decide (error message) = false

  -- The live query says that the approval is over.
  abbrev pub is_over : StatusQuery Detail → Bool
  is_over loading = false
  is_over (ready status can_act d) = not (is_pending status)
  is_over forbidden = false
  is_over not_found = false
  is_over (error message) = false

  live_view-buttons :
      (q : StatusQuery Detail) (s : CardState Detail)
      → (has_buttons (live_view q s) ≡ may_decide q) × (shows_outcome (live_view q s) ≡ is_over q)
  unfolding live_view is_terminal_status
  live_view-buttons loading s = (refl, refl)
  live_view-buttons not_found s = (refl, refl)
  live_view-buttons (error message) s = (refl, refl)
  live_view-buttons forbidden s = (refl, refl)
  live_view-buttons (ready pending true d) s = (refl, refl)
  live_view-buttons (ready pending false d) s = (refl, refl)
  live_view-buttons (ready approved c d) s = (refl, refl)
  live_view-buttons (ready rejected c d) s = (refl, refl)
  live_view-buttons (ready timeout c d) s = (refl, refl)
  live_view-buttons (ready expired c d) s = (refl, refl)

  -- A card has buttons exactly if it is wired and the live query either is refused or gives a pending
  -- approval that the viewer may act on; it shows an outcome exactly if it is wired and the live
  -- query gives an approval that is over, whatever the other flags of the card say.
  pub approve_card_view-buttons :
      (s : CardState Detail)
      → (has_buttons (approve_card_view s) ≡ (s.wired && may_decide s.live))
        × (shows_outcome (approve_card_view s) ≡ (s.wired && is_over s.live))
  unfolding approve_card_view
  approve_card_view-buttons s = elim (Bool-cases s.wired) [
    | inl on ↦ simp on (live_view-buttons s.live s)
    | inr off ↦ simp off (refl, refl)
  ]
