-- ===== src/Canvas/Tests.antt =====
-- Runs of the canvas transitions.
use workbench.Prelude.{ℕ, ◌≡◌, refl, some, List, [], ◌∷◌}
use workbench.Canvas.{initial_canvas}
use workbench.Canvas.Panes.{
  IsExclusive, Move, show_profile, show_artifact, enter_focus, apply_move, run_moves,
  run_moves-IsExclusive,
}

abbrev visit : List (Move ℕ ℕ ℕ)
visit = show_profile 4 ∷ enter_focus ∷ show_artifact 7 ∷ []

visit_shows : (run_moves initial_canvas visit).artifact ≡ some 7
unfolding run_moves initial_canvas apply_move
visit_shows = refl

run_moves-IsExclusive_example : IsExclusive (run_moves initial_canvas visit)
run_moves-IsExclusive_example = run_moves-IsExclusive visit
