-- ===== src/Provision/Requests.antt =====
-- The requests of `createProcessSidecarProvisioner` in
-- apps/hub/src/provisioners/process.ts: `ensureOnce` and `destroy`, and the sweep between them.
use workbench.Prelude.{
  ℕ, String, ◌==◌, Bool, true, false, not, Option, none, some, List, [], ◌∷◌, if◌then◌else◌, keep,
  add_all,
}
use workbench.Prelude.Action.{Action, Attempt, done, thrown, pure, throw, modify, ◌>>=◌, ◌>>◌}
use workbench.Provision.Store.{
  Codec, Store, StoreFault, Target, Observation, observed, refused, ObserveCode, stale_generation,
  generation_destroyed, request_conflict, observe_ensure, observe_destroy, record_unit,
}
use workbench.Provision.Refs.{Numerals, external_ref_of, generation_of, pid_of}
use workbench.Provision.Units.{
  UnitDir, World, Host, Fault, operation, store_failed, classify, is_alive, WorldAction,
  allocation_dir_of, start_unit, stop_unit,
}

-- A generation that is no integer, or negative, is `none`.
pub record EnsureRequest : Type 0 where
  pub allocation_id : String
  pub sidecar_id : String
  pub generation : Option ℕ
  pub token : String
  pub hub_url : String

pub record DestroyRequest : Type 0 where
  pub allocation_id : String
  pub sidecar_id : String
  pub generation : Option ℕ
  pub external_ref : Option String

pub data EnsureResult : Type 0 where
  accepted : String → EnsureResult
  ensure_rejected : String → Bool → EnsureResult

pub data DestroyResult : Type 0 where
  destroy_confirmed : DestroyResult
  destroy_rejected : String → Bool → DestroyResult

abbrev pub target_of : EnsureRequest → ℕ → Target
target_of q g = record {
  allocation_id = q.allocation_id;
  sidecar_id = q.sidecar_id;
  generation = g;
}

abbrev pub destroy_target : DestroyRequest → ℕ → Target
destroy_target q g = record {
  allocation_id = q.allocation_id;
  sidecar_id = q.sidecar_id;
  generation = g;
}

-- `validateEnsureRequest`: the generation, where the request is valid.
unfoldable pub validate_ensure : EnsureRequest → Option ℕ
validate_ensure q =
    if q.allocation_id == ""
    then none
    else if q.sidecar_id == ""
    then none
    else if q.token == ""
    then none
    else if q.hub_url == ""
    then none
    else q.generation

unfoldable pub validate_destroy : DestroyRequest → Option ℕ
validate_destroy q =
    if q.allocation_id == "" then none else if q.sidecar_id == "" then none else q.generation

abbrev pub code_text : ObserveCode → String
code_text stale_generation = "stale_generation"
code_text generation_destroyed = "generation_destroyed"
code_text request_conflict = "request_conflict"

-- The test of one directory entry in `findUnitsByAllocation`.
abbrev pub live_pid : List ℕ → Option ℕ → Option ℕ
live_pid alive none = none
live_pid alive (some pid) = if is_alive alive pid then some pid else none

-- What other requests do to the world while a request waits: when it was observed, its unit started, the
-- unit recorded, and units stopped that are not wanted
pub record Others (c : Codec) : Type 0 where
  pub once_observed : World c → World c
  pub once_started : World c → World c
  pub once_recorded : World c → World c
  pub once_swept : World c → World c

abbrev pub lift_fault : {A : Type 0} → Attempt StoreFault A → Attempt Fault A
lift_fault (done a) = done a
lift_fault (thrown e) = thrown (store_failed e)

module _ (c : Codec) where
  abbrev pub caught :
      {A B : Type 0}
      → String
      → (String → Bool → B)
      → Attempt Fault A
      → (A → WorldAction c B)
      → WorldAction c B
  caught default refuse (done a) k w = k a w
  caught default refuse (thrown e) k w =
      (done (refuse (classify e default).0 (classify e default).1), w)

  -- A call of the store; what it throws is passed on.
  unfoldable pub from_store : {A : Type 0} → Action (Store c) StoreFault A → WorldAction c A
  from_store m w = (lift_fault (m w.store).0, record w { store = (m w.store).1 })

  -- `try { … } catch (error) { return rejected(...classify(error, …)) }`, with what follows it.
  unfoldable pub or_reject :
      {A B : Type 0}
      → String
      → (String → Bool → B)
      → WorldAction c A
      → (A → WorldAction c B)
      → WorldAction c B
  or_reject default refuse m k w = caught default refuse (m w).0 k (m w).1

  module _ (js : Numerals) where
    -- The loop of `findUnitsByAllocation`. An entry that is no unit directory is passed over before
    -- its pid file is read.
    unfoldable pub read_unit : Host → List ℕ → Option String → Attempt Fault (Option ℕ)
    read_unit host alive none = done none
    read_unit host alive (some text) =
        if host.pid_readable
        then done (live_pid alive (pid_of js text))
        else thrown (operation "pid_file_read_failed" true)

    abbrev pub list_ref : String → ℕ → Option ℕ → List String → List String
    list_ref id g none refs = refs
    list_ref id g (some pid) refs = external_ref_of js id g pid ∷ refs

    abbrev pub with_ref :
        String
        → ℕ
        → Attempt Fault (Option ℕ)
        → Attempt Fault (List String)
        → Attempt Fault (List String)
    with_ref id g (thrown e) rest = thrown e
    with_ref id g (done pid) (thrown e) = thrown e
    with_ref id g (done pid) (done refs) = done (list_ref id g pid refs)

    abbrev pub found_unit :
        Host
        → String
        → List ℕ
        → Option String
        → Option ℕ
        → Attempt Fault (List String)
        → Attempt Fault (List String)
    found_unit host id alive pid_file none rest = rest
    found_unit host id alive pid_file (some g) rest =
        with_ref id g (read_unit host alive pid_file) rest

    unfoldable pub scan_units : Host → String → List ℕ → List UnitDir → Attempt Fault (List String)
    unfolding read_unit
    scan_units host id alive [] = done []
    scan_units host id alive (u ∷ us) =
        let rest = scan_units host id alive us in
        if u.allocation_id == id
        then found_unit host id alive u.pid_file (generation_of js u.entry) rest
        else rest

    unfoldable pub find_units : Host → String → WorldAction c (List String)
    find_units host allocation_id = do
      id ← allocation_dir_of c allocation_id
      if host.listed then pure tt else throw (operation "allocation_dir_read_failed" true)
      λ w. (scan_units host id w.alive w.units, w)

    -- The loop of `sweepObsoleteUnits`: a unit that cannot be stopped is reported and left.
    unfoldable pub sweep : Host → List String → World c → World c
    sweep host [] w = w
    sweep host (ref ∷ refs) w = sweep host refs (stop_unit c js host ref w).1

    unfoldable pub sweep_obsolete : Host → String → String → WorldAction c (Unit {0})
    sweep_obsolete host id keep_ref = do
      candidates ← find_units host id
      modify (sweep host (keep (λ ref. not (ref == keep_ref)) candidates))

    -- Whether the store still wanted the unit when it had started.
    unfoldable pub conclude_start :
        Host → Others c → Target → String → Bool → WorldAction c EnsureResult
    conclude_start host others t ref true = do
      modify (others.once_recorded)
      sweep_obsolete host t.allocation_id ref
      modify (others.once_swept)
      pure (accepted ref)
    conclude_start host others t ref false = do
      modify (others.once_recorded)
      stop_unit c js host ref
      modify (others.once_swept)
      pure (ensure_rejected "stale_generation" false)

    unfoldable pub start_observed : Host → Others c → Target → WorldAction c EnsureResult
    start_observed host others t =
        or_reject "start_unit_failed" ensure_rejected
          (start_unit c js host t.allocation_id t.generation)
          λ ref. do
            modify (others.once_started)
            recorded ← from_store (record_unit c host.record_host t.allocation_id t.generation ref)
            conclude_start host others t ref recorded

    unfoldable pub after_observation :
        Host → Others c → Target → Observation → WorldAction c EnsureResult
    after_observation host others t (refused code) = pure (ensure_rejected (code_text code) false)
    after_observation host others t (observed r) = elim r.external_ref [
      | none ↦ (do modify (others.once_observed); start_observed host others t)
      | some ref ↦ (do
        modify (others.once_observed)
        sweep_obsolete host t.allocation_id ref
        modify (others.once_swept)
        pure (accepted ref))
    ]

    -- `ensureOnce`, with what other requests do while it waits. Within `startUnit`, the sweep and `stopUnit`,
    -- which do not touch the store, nothing is interleaved.
    unfoldable pub ensure_once : Host → Others c → EnsureRequest → WorldAction c EnsureResult
    ensure_once host others q = elim (validate_ensure q) [
      | none ↦ pure (ensure_rejected "invalid_ensure_request" false)
      | some g ↦ do
        o ← from_store (observe_ensure c host.observe (target_of q g))
        after_observation host others (target_of q g) o
    ]

    -- The units that `destroy` stops: the request's, or the record's, or those on disk.
    unfoldable pub refs_to_stop :
        Host → String → Option String → Option String → WorldAction c (List String)
    refs_to_stop host id (some ref) recorded = pure (ref ∷ [])
    refs_to_stop host id none (some ref) = pure (ref ∷ [])
    refs_to_stop host id none none = do refs ← find_units host id; pure (add_all [] refs)

    -- The loop over the references, up to the first that cannot be stopped.
    unfoldable pub stop_all : Host → List String → WorldAction c DestroyResult
    stop_all host [] = pure destroy_confirmed
    stop_all host (ref ∷ refs) =
        or_reject "destroy_unit_failed" destroy_rejected (stop_unit c js host ref)
          λ _. stop_all host refs

    unfoldable pub destroy_observed :
        Host → Others c → DestroyRequest → Observation → WorldAction c DestroyResult
    destroy_observed host others q (refused code) = pure (destroy_rejected (code_text code) false)
    destroy_observed host others q (observed r) = do
      modify (others.once_observed)
      refs ← refs_to_stop host q.allocation_id q.external_ref r.external_ref
      stop_all host refs

    -- `destroy`, with what other requests do once the request is observed. Within the search of the units and
    -- `stopUnit`, which do not touch the store, nothing is interleaved.
    unfoldable pub destroy : Host → Others c → DestroyRequest → WorldAction c DestroyResult
    destroy host others q = elim (validate_destroy q) [
      | none ↦ pure (destroy_rejected "invalid_destroy_request" false)
      | some g ↦ do
        o ← from_store (observe_destroy c host.observe (destroy_target q g))
        destroy_observed host others q o
    ]
