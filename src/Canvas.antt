-- ===== src/Canvas.antt =====
-- The canvas column of the web client's shell (apps/web/src/shell/layout/canvas-column-state.ts):
-- pure transitions of one record. The proofs are in the modules below.
pub mod Panes
mod Tests
use workbench.Prelude.{Bool, true, false, ◌&&◌, Option, none, some, if◌then◌else◌}

pub record Canvas {ℓ} (P A R : Type ℓ) : Type ℓ where
  pub shown : Bool  -- `open`
  pub profile : Option P
  pub artifact : Option A
  pub routine : Option R
  pub focus : Bool

module _ {ℓ} {P A R : Type ℓ} where
  unfoldable pub initial_canvas : Canvas P A R
  initial_canvas = record {
    shown = false;
    profile = none;
    artifact = none;
    routine = none;
    focus = false;
  }

  unfoldable pub clear_for_tenant_switch : Canvas P A R
  unfolding initial_canvas
  clear_for_tenant_switch = initial_canvas

  unfoldable pub open_profile : Canvas P A R → P → Canvas P A R
  open_profile s p = record s { shown = true; profile = some p; artifact = none; routine = none }

  unfoldable pub clear_profile : Canvas P A R → Canvas P A R
  clear_profile s = record s { shown = false; profile = none; focus = false }

  unfoldable pub open_artifact : Canvas P A R → A → Canvas P A R
  open_artifact s a = record s { shown = true; artifact = some a; profile = none; routine = none }

  unfoldable pub clear_artifact : Canvas P A R → Canvas P A R
  clear_artifact s = record s { shown = false; artifact = none; focus = false }

  unfoldable pub open_routine : Canvas P A R → R → Canvas P A R
  open_routine s r = record s { shown = true; routine = some r; profile = none; artifact = none }

  unfoldable pub clear_routine : Canvas P A R → Canvas P A R
  clear_routine s = record s { shown = false; routine = none; focus = false }

  unfoldable pub focus_canvas : Canvas P A R → Canvas P A R
  focus_canvas s = record s { shown = true; focus = true }

  unfoldable pub unfocus_canvas : Canvas P A R → Canvas P A R
  unfocus_canvas s = record s { focus = false }

  unfoldable pub toggle_focus : Canvas P A R → Canvas P A R
  unfolding focus_canvas unfocus_canvas
  toggle_focus s = if s.shown then (if s.focus then unfocus_canvas s else focus_canvas s) else s

  unfoldable pub close_content : Canvas P A R → Canvas P A R
  unfolding clear_profile clear_artifact clear_routine
  close_content s = elim s.profile [
    | some p ↦ clear_profile s
    | none ↦ elim s.artifact [
      | some a ↦ clear_artifact s
      | none ↦ elim s.routine [
        | some r ↦ clear_routine s
        | none ↦ record s { shown = false; focus = false }
      ]
    ]
  ]

  unfoldable pub resolve_visibility : Canvas P A R → Bool → Bool
  resolve_visibility s allowed = s.shown && allowed

  unfoldable pub resolve_focus : Canvas P A R → Bool → Bool
  resolve_focus s allowed = s.shown && s.focus && allowed
