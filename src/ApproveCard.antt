-- ===== src/ApproveCard.antt =====
-- The view of an approval card (apps/web/src/chat/blocks/approve-card-state.ts). What the platform
-- tells of an approval is a type of its own, that the view passes on.
pub mod Buttons
mod Tests
use workbench.Prelude.{String, Bool, true, false, Option, or_else, if◌then◌else◌}

pub data LiveStatus : Type 0 where
  pending approved rejected timeout expired : LiveStatus

pub data Decision : Type 0 where
  approve reject : Decision

-- `ApprovalStatusQuery` of apps/web/src/chat/blocks/approval-actions.ts
pub data StatusQuery (Detail : Type 0) : Type 0 where
  loading : StatusQuery Detail
  ready : LiveStatus → Bool → Detail → StatusQuery Detail  -- the status and `canAct`
  forbidden : StatusQuery Detail
  not_found : StatusQuery Detail
  error : String → StatusQuery Detail

pub data CardView (Detail : Type 0) : Type 0 where
  unwired : CardView Detail
  view_loading : CardView Detail
  actionable : Detail → Option Decision → Option String → CardView Detail
  spectator : LiveStatus → Detail → CardView Detail
  undetermined : Option Decision → Option String → CardView Detail
  resolved : LiveStatus → Detail → Bool → CardView Detail
  view_not_found : CardView Detail
  load_error : String → CardView Detail

pub record CardState (Detail : Type 0) : Type 0 where
  pub wired : Bool
  pub live : StatusQuery Detail
  pub deciding : Option Decision
  pub decision_error : Option String
  pub resolved_elsewhere : Option Bool

unfoldable pub is_terminal_status : LiveStatus → Bool
is_terminal_status pending = false
is_terminal_status approved = true
is_terminal_status rejected = true
is_terminal_status timeout = true
is_terminal_status expired = true

module _ {Detail : Type 0} where
  -- The switch on the live query.
  unfoldable pub live_view : StatusQuery Detail → CardState Detail → CardView Detail
  unfolding is_terminal_status
  live_view loading s = view_loading
  live_view not_found s = view_not_found
  live_view (error message) s = load_error message
  live_view forbidden s = undetermined s.deciding s.decision_error
  live_view (ready status can_act detail) s =
      if is_terminal_status status
      then resolved status detail (or_else s.resolved_elsewhere false)
      else if can_act
      then actionable detail s.deciding s.decision_error
      else spectator status detail

  unfoldable pub approve_card_view : CardState Detail → CardView Detail
  unfolding live_view
  approve_card_view s = if s.wired then live_view s.live s else unwired
