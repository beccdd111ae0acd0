-- ===== src/Canvas/Panes.antt =====
-- At most one pane is set, and focus is only held by an open canvas, whatever the transitions.
use workbench.Prelude.{◌≡◌, ◌⊎◌, true, false, none, List, [], ◌∷◌, arith}
use workbench.Canvas.{
  Canvas, initial_canvas, clear_for_tenant_switch, open_profile, clear_profile, open_artifact,
  clear_artifact, open_routine, clear_routine, focus_canvas, unfocus_canvas, toggle_focus,
  close_content,
}

-- The panes are mutually exclusive; a canvas in focus is open.
pub record IsExclusive {ℓ} {P A R : Type ℓ} (s : Canvas P A R) : Type ℓ where
  pub profile_artifact : (s.profile ≡ none) ⊎ (s.artifact ≡ none)
  pub profile_routine : (s.profile ≡ none) ⊎ (s.routine ≡ none)
  pub artifact_routine : (s.artifact ≡ none) ⊎ (s.routine ≡ none)
  pub focus_open : (s.focus ≡ false) ⊎ (s.shown ≡ true)

-- The transitions that the shell calls.
pub data Move {ℓ} (P A R : Type ℓ) : Type ℓ where
  switch_tenant : Move P A R
  show_profile : P → Move P A R
  drop_profile : Move P A R
  show_artifact : A → Move P A R
  drop_artifact : Move P A R
  show_routine : R → Move P A R
  drop_routine : Move P A R
  enter_focus : Move P A R
  leave_focus : Move P A R
  cycle_focus : Move P A R
  close : Move P A R

module _ {ℓ} {P A R : Type ℓ} where
  unfoldable pub apply_move : Canvas P A R → Move P A R → Canvas P A R
  unfolding initial_canvas clear_for_tenant_switch open_profile clear_profile open_artifact
      clear_artifact open_routine clear_routine focus_canvas unfocus_canvas toggle_focus
      close_content
  apply_move s switch_tenant = clear_for_tenant_switch
  apply_move s (show_profile p) = open_profile s p
  apply_move s drop_profile = clear_profile s
  apply_move s (show_artifact a) = open_artifact s a
  apply_move s drop_artifact = clear_artifact s
  apply_move s (show_routine r) = open_routine s r
  apply_move s drop_routine = clear_routine s
  apply_move s enter_focus = focus_canvas s
  apply_move s leave_focus = unfocus_canvas s
  apply_move s cycle_focus = toggle_focus s
  apply_move s close = close_content s

  unfoldable pub run_moves : Canvas P A R → List (Move P A R) → Canvas P A R
  run_moves s [] = s
  run_moves s (m ∷ ms) = run_moves (apply_move s m) ms

  apply_move-IsExclusive :
      (s : Canvas P A R) (m : Move P A R) → IsExclusive s → IsExclusive (apply_move s m)
  unfolding apply_move
  apply_move-IsExclusive s switch_tenant h = ground arith
  apply_move-IsExclusive s _ h = ground arith

  run_moves_keeps :
      (s : Canvas P A R) (ms : List (Move P A R)) → IsExclusive s → IsExclusive (run_moves s ms)
  unfolding run_moves
  run_moves_keeps s [] h = h
  run_moves_keeps s (m ∷ ms) h = run_moves_keeps (apply_move s m) ms (apply_move-IsExclusive s m h)

  -- From the initial canvas, after any sequence of transitions, at most one of the three panes is
  -- set, and a canvas in focus is open.
  pub run_moves-IsExclusive : (ms : List (Move P A R)) → IsExclusive (run_moves initial_canvas ms)
  unfolding initial_canvas
  run_moves-IsExclusive ms = run_moves_keeps initial_canvas ms (ground arith)

  -- Where at most one pane is set, closing the content gives the initial canvas: nothing is shown,
  -- in any pane, and focus is dropped.
  pub close_content-initial : (s : Canvas P A R) → IsExclusive s → close_content s ≡ initial_canvas
  unfolding close_content initial_canvas
  close_content-initial s h = ground arith

  -- On an open canvas in or out of focus, toggling the focus twice gives the canvas back; on a
  -- closed canvas toggling does nothing.
  pub toggle_focus_twice : (s : Canvas P A R) → toggle_focus (toggle_focus s) ≡ s
  unfolding toggle_focus
  toggle_focus_twice s = ground arith
