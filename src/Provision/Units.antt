-- ===== src/Provision/Units.antt =====
-- The units of apps/hub/src/provisioners/process.ts: a directory with a pid file, and a process.
-- What the operating system answers is the parameter `Host`; one value covers one request.
use workbench.Prelude.{
  ◌<>◌, ℕ, zero, suc, ◌+◌, String, ◌==◌, Bool, true, false, not, ◌&&◌, ◌||◌, Option, none, some,
  List, [], ◌∷◌, ◌++◌, nat_eq, ltb, if◌then◌else◌, any, keep,
}
use workbench.Prelude.Action.{Action, Attempt, done, thrown, pure, throw, modify, ◌>>=◌, ◌>>◌}
use workbench.Provision.Store.{Codec, Store, StoreHost, StoreFault}
use workbench.Provision.Refs.{
  Numerals, UnitRef, is_allocation_id, external_ref_of, parse_external_ref, unit_entry,
}

-- A unit's directory, under the directory of its allocation. No pid file is `none`.
pub record UnitDir : Type 0 where
  pub allocation_id : String
  pub entry : String
  pub pid_file : Option String

pub record World (c : Codec) : Type 0 where
  pub store : Store c
  pub units : List UnitDir
  pub alive : List ℕ  -- the processes that a signal 0 reaches

-- How a process answers the signals: `exits n` is gone after n polls.
pub data Reaction : Type 0 where
  exits : ℕ → Reaction
  ignores_term : Reaction
  refuses_term refuses_kill : Reaction  -- the call that sends the signal throws

pub record Host : Type 0 where
  pub observe : StoreHost
  pub record_host : StoreHost
  pub path_set : Bool  -- the hub has a PATH to forward
  pub unit_made : Bool
  pub spawned : Option ℕ
  pub pid_written : Bool
  pub listed : Bool
  pub pid_readable : Bool
  pub reaction : ℕ → Reaction
  pub polls : ℕ  -- the rounds of the poll loop before the deadline
  pub unit_removed : Bool
  pub parent_removed : Bool  -- `rmdir` succeeds, or fails in a way that is ignored

-- A `ProvisionerOperationError` (its code, and whether to retry), or any other error.
pub data Fault : Type 0 where
  operation : String → Bool → Fault
  signal_failed : Fault
  store_failed : StoreFault → Fault

-- `operationalFailure`
abbrev pub operational_failure : Fault → String → Fault
operational_failure (operation code retryable) default = operation code retryable
operational_failure signal_failed default = operation default true
operational_failure (store_failed e) default = operation default true

-- `classify`
abbrev pub classify : Fault → String → String × Bool
classify (operation code retryable) default = (code, retryable)
classify signal_failed default = (default, true)
classify (store_failed e) default = (default, true)

unfoldable pub is_alive : List ℕ → ℕ → Bool
is_alive [] pid = false
is_alive (p ∷ ps) pid = nat_eq p pid || is_alive ps pid

unfoldable pub bury : ℕ → List ℕ → List ℕ
bury pid = keep (λ p. not (nat_eq p pid))

-- Whether a process that got SIGTERM is there at the n-th poll.
abbrev pub lives_at : Reaction → ℕ → Bool
lives_at (exits m) n = ltb n m
lives_at ignores_term n = true
lives_at refuses_term n = true
lives_at refuses_kill n = true

-- The poll loop of `terminate`, with the rounds left before the deadline: the polls made.
unfoldable pub await_exit : ℕ → Reaction → ℕ → ℕ
await_exit zero r n = n
await_exit (suc rounds) r n =
    let later = await_exit rounds r (n + 1) in if lives_at r n then later else n

abbrev pub is_unit : String → String → UnitDir → Bool
is_unit id entry u = u.allocation_id == id && u.entry == entry

-- `mkdir` of the unit's data directory, recursive: what is there stays.
unfoldable pub make_unit : String → String → List UnitDir → List UnitDir
make_unit id entry us =
    if any (is_unit id entry) us
    then us
    else us ++ record { allocation_id = id; entry = entry; pid_file = none } ∷ []

unfoldable pub write_pid : String → String → String → List UnitDir → List UnitDir
write_pid id entry text [] = []
write_pid id entry text (u ∷ us) =
    (if is_unit id entry u then record u { pid_file = some text } else u)
    ∷ write_pid id entry text us

-- `rm` of the unit's directory, recursive
unfoldable pub remove_unit : String → String → List UnitDir → List UnitDir
remove_unit id entry = keep (λ u. not (is_unit id entry u))

module _ (c : Codec) where
  abbrev pub WorldAction : Type 0 → Type 0
  WorldAction A = Action (World c) Fault A

  -- `try … catch (error) { throw operationalFailure(…) }`
  abbrev pub rethrow_as :
      {A : Type 0} → String → Attempt Fault A × World c → Attempt Fault A × World c
  rethrow_as code (done a, w) = (done a, w)
  rethrow_as code (thrown e, w) = (thrown (operational_failure e code), w)

  -- The end of `terminate`: a process that is still there gets SIGKILL, and is gone unless the call
  -- throws.
  unfoldable pub kill : ℕ → Reaction → WorldAction (Unit {0})
  kill pid refuses_kill w = (thrown signal_failed, w)
  kill pid r w = (done tt, record w { alive = bury pid w.alive })

  unfoldable pub finish_off : ℕ → Reaction → ℕ → WorldAction (Unit {0})
  unfolding kill
  finish_off pid r polled w =
      if lives_at r polled then kill pid r w else (done tt, record w { alive = bury pid w.alive })

  unfoldable pub send_term : Host → ℕ → Reaction → WorldAction (Unit {0})
  unfolding finish_off
  send_term host pid refuses_term w = (thrown signal_failed, w)
  send_term host pid r w = finish_off pid r (await_exit host.polls r 0) w

  unfoldable pub terminate : Host → ℕ → WorldAction (Unit {0})
  unfolding send_term
  terminate host pid w =
      if is_alive w.alive pid then send_term host pid (host.reaction pid) w else (done tt, w)

  -- `allocationDirOf`: the id is returned where it names a directory.
  unfoldable pub allocation_dir_of : String → WorldAction String
  allocation_dir_of id w =
      if is_allocation_id id
      then (done id, w)
      else (thrown (operation "invalid_allocation_id" false), w)

  -- A step of the operating system that throws an ordinary error, under `operationalFailure`.
  unfoldable pub attempt : Bool → String → (World c → World c) → WorldAction (Unit {0})
  attempt true code f w = (done tt, f w)
  attempt false code f w = (thrown (operation code true), w)

  module _ (js : Numerals) where
    -- `runner.spawn`
    unfoldable pub spawn : Host → WorldAction ℕ
    spawn host w = elim host.spawned [
      | none ↦ (thrown (operation "sidecar_spawn_failed" true), w)
      | some pid ↦ (done pid, record w { alive = pid ∷ w.alive })
    ]

    -- The pid file; where it cannot be written the process is stopped, and the error thrown.
    unfoldable pub save_pid : Host → String → String → ℕ → WorldAction (Unit {0})
    save_pid host id entry pid =
        if host.pid_written
        then modify (λ w. record w { units = write_pid id entry (js.show pid <> "\n") w.units })
        else (do terminate host pid; throw (operation "pid_file_write_failed" true))

    unfoldable pub start_unit : Host → String → ℕ → WorldAction String
    start_unit host allocation_id generation = do
      id ← allocation_dir_of allocation_id
      let entry = unit_entry js generation
      if host.path_set then pure tt else throw (operation "missing_path" false)
      attempt host.unit_made "allocation_dir_failed"
          (λ w. record w { units = make_unit id entry w.units })
      pid ← spawn host
      save_pid host id entry pid
      pure (external_ref_of js id generation pid)

    -- The directories of a unit that was stopped.
    unfoldable pub remove_dirs : Host → UnitRef → WorldAction (Unit {0})
    remove_dirs host u = do
      id ← allocation_dir_of u.allocation_id
      attempt host.unit_removed "allocation_dir_cleanup_failed"
          (λ w. record w { units = remove_unit id (unit_entry js u.generation) w.units })
      attempt host.parent_removed "allocation_dir_cleanup_failed" (λ w. w)

    unfoldable pub stop_parsed : Host → Option UnitRef → WorldAction (Unit {0})
    stop_parsed host none = throw (operation "invalid_external_ref" false)
    stop_parsed host (some u) = do
      λ w. rethrow_as "sidecar_terminate_failed" (terminate host u.pid w)
      remove_dirs host u

    unfoldable pub stop_unit : Host → String → WorldAction (Unit {0})
    stop_unit host ref = stop_parsed host (parse_external_ref js ref)
