-- ===== src/Sidecar/Groups.antt =====
-- The signals to a workflow child's process group (`defaultSubprocessSpawner` of
-- apps/sidecar/src/workflow-child-spawner.ts). The operating system is a parameter: how `process.kill`
-- on the group ends, after the signals that were tried before. What is logged is left out.
use workbench.Prelude.{
  ℕ, ◌≡◌, refl, String, Bool, true, false, Option, none, some, List, [], ◌∷◌, ◌++◌, ◌⊎◌, inl, inr,
}
use workbench.Prelude.Action.{Attempt, done, thrown, Action, pure, throw}

-- `number | NodeJS.Signals`
pub data Signal : Type 0 where
  named_signal : String → Signal
  numbered_signal : ℕ → Signal

-- How a system call fails: with the code ESRCH, or another way
pub data KillError : Type 0 where
  no_process : KillError
  kill_refused : String → KillError

-- What the closure of one spawned child holds, with the signals that were tried on its group
pub record Child : Type 0 where
  pub group_released : Bool
  pub sent : List Signal

abbrev pub ChildAction : Type 0 → Type 0
ChildAction = Action Child String

-- What `kill`, and the end of the child, do
pub data ChildEvent : Type 0 where
  killed : Option Signal → ChildEvent
  exited : ChildEvent

abbrev pub sigterm : Signal
sigterm = named_signal "SIGTERM"

abbrev pub sigkill : Signal
sigkill = named_signal "SIGKILL"

module _ (os : List Signal → Signal → Option KillError) where
  -- The `catch` of `signalGroup`
  abbrev pub catch_signal : Option KillError → ChildAction (Unit {0})
  catch_signal none = pure tt
  catch_signal (some no_process) = pure tt
  catch_signal (some (kill_refused message)) = throw message

  unfoldable pub signal_group : Signal → ChildAction (Unit {0})
  signal_group signal c = elim c.group_released [
    | true ↦ (done tt, c)
    | false ↦ catch_signal (os c.sent signal) (record c { sent = c.sent ++ signal ∷ [] })
  ]

  -- `kill` of the handle
  unfoldable pub kill_child : Option Signal → ChildAction (Unit {0})
  unfolding signal_group
  kill_child none = signal_group sigterm
  kill_child (some signal) = signal_group signal

  -- After the final signal: the group is released if that did not throw.
  abbrev pub released : Attempt String (Unit {0}) × Child → Child
  released (done x, c) = record c { group_released = true }
  released (thrown e, c) = c

  -- The `then` of `exited`; it never throws.
  unfoldable pub settle : Child → Child
  unfolding signal_group
  settle c = released (signal_group sigkill c)

  abbrev pub no_event_channel : String
  no_event_channel = "workflow-host-wiring: Bun.spawn did not return a numeric fd"

  -- The spawner behind `Bun.spawn`, with what that returns at the child's event descriptor
  unfoldable pub spawn_child : Option ℕ → ChildAction ℕ
  unfolding signal_group
  spawn_child (some fd) c = (done fd, c)
  spawn_child none c = (thrown no_event_channel, (signal_group sigkill c).1)

  unfoldable pub child_step : ChildEvent → Child → Child
  unfolding kill_child settle
  child_step (killed signal) c = (kill_child signal c).1
  child_step exited c = settle c

  unfoldable pub run_child : List ChildEvent → Child → Child
  unfolding child_step
  run_child [] c = c
  run_child (e ∷ es) c = run_child es (child_step e c)

  -- A released group gets no further signal.
  child_step-released : (e : ChildEvent) (c : Child) → c.group_released ≡ true → child_step e c ≡ c
  unfolding child_step kill_child settle signal_group
  child_step-released (killed none) c h = rw (h) refl
  child_step-released (killed (some signal)) c h = rw (h) refl
  child_step-released exited c h = rw (h) (cc)

  run_child-released :
      (es : List ChildEvent) (c : Child) → c.group_released ≡ true → run_child es c ≡ c
  unfolding run_child
  run_child-released [] c h = refl
  run_child-released (e ∷ es) c h = rw (child_step-released e c h) (run_child-released es c h)

  -- The system took the signal, or there was no process left to take it.
  abbrev pub Delivered : Option KillError → Type 0
  Delivered answer = (answer ≡ none) ⊎ (answer ≡ some no_process)

  settle-Delivered :
      (c : Child)
      → c.group_released ≡ false
      → Delivered (os c.sent sigkill)
      → settle c ≡ record { group_released = true; sent = c.sent ++ sigkill ∷ [] }
  unfolding settle signal_group
  settle-Delivered c h (inl e) = rw (h) (rw (e) refl)
  settle-Delivered c h (inr e) = rw (h) (rw (e) refl)

  -- When the child has exited while its group was not released, and the final SIGKILL to the group
  -- was taken or found no process, then that is the last signal the group gets, whatever calls of
  -- `kill` follow.
  pub run_child-exited :
      (c : Child) (later : List ChildEvent)
      → c.group_released ≡ false
      → Delivered (os c.sent sigkill)
      → run_child (exited ∷ later) c
        ≡ record { group_released = true; sent = c.sent ++ sigkill ∷ [] }
  unfolding run_child child_step
  run_child-exited c later h delivered =
      rw (settle-Delivered c h delivered) (run_child-released later _ refl)
