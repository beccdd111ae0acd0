-- ===== src/Provision/Store.antt =====
-- `createAllocationStateStore` of apps/hub/src/provisioners/process.ts. `runExclusive` runs the
-- operations one after the other, so each is one function of the state. JSON is the
-- parameter `Codec`; what the schemas ask of the types is in the type of its rows, what they ask of the
-- texts is `is_allocation_record`.
pub mod Advance
pub mod Table
pub mod Sound
pub mod Restart
pub mod Changes
pub mod History
pub mod Answers
use workbench.Prelude.{
  ℕ, ◌≡◌, ◌≢◌, String, ◌==◌, Bool, true, false, not, ◌&&◌, ◌||◌, Option, none, some, List, [], ◌∷◌,
  nat_eq, ltb, if◌then◌else◌, is_some, or_else, all, Dict, lookup, insert, values,
}
use workbench.Prelude.Action.{Action, Attempt, done, thrown, pure, throw, gets, modify, ◌>>=◌, ◌>>◌}

pub data Desired : Type 0 where
  ensured destroyed : Desired

pub record Allocation : Type 0 where
  pub allocation_id : String
  pub sidecar_id : String
  pub generation : ℕ
  pub desired : Desired
  pub external_ref : Option String
  pub updated_at : String

abbrev pub is_destroyed : Desired → Bool
is_destroyed ensured = false
is_destroyed destroyed = true

-- What `JSON.parse` makes of the state file: nothing, or a value that is not an object with the version
-- and an array of records with fields of these types, or such records.
pub data Parsed : Type 0 where
  bad_json : Parsed
  bad_shape : Parsed
  rows : List Allocation → Parsed

-- The schema `AllocationRecord` asks that no text of a record is empty, but for the external reference.
abbrev pub is_non_empty : String → Bool
is_non_empty s = not (s == "")

unfoldable pub is_allocation_record : Allocation → Bool
is_allocation_record r =
    is_non_empty r.allocation_id && (is_non_empty r.sidecar_id && is_non_empty r.updated_at)

-- `JSON.stringify` and `JSON.parse`. What was written reads back.
pub record Codec : Type 1 where
  pub Contents : Type 0
  pub encode : List Allocation → Contents
  pub decode : Contents → Parsed
  pub decode-encode : (rs : List Allocation) → decode (encode rs) ≡ rows rs

-- How an atomic write ends. It can throw after the rename, when the directory is synced.
pub data Write : Type 0 where
  written write_failed sync_failed : Write

-- What the operating system answers during one operation, and the time.
pub record StoreHost : Type 0 where
  pub directory_made : Bool
  pub readable : Bool
  pub write : Write
  pub now : String

pub data StoreFault : Type 0 where
  directory_failed read_failed invalid_json invalid_state persist_failed : StoreFault
  duplicate : String → StoreFault

pub data ObserveCode : Type 0 where
  stale_generation generation_destroyed request_conflict : ObserveCode

pub data Observation : Type 0 where
  observed : Allocation → Observation
  refused : ObserveCode → Observation

-- The identifying part of a request.
pub record Target : Type 0 where
  pub allocation_id : String
  pub sidecar_id : String
  pub generation : ℕ

pub record Store (c : Codec) : Type 0 where
  pub memory : Dict Allocation
  pub initialized : Bool
  pub disk : Option (c.Contents)

-- The checks of `observeEnsure` on the existing record; `none` writes a new one.
unfoldable pub judge_ensure : Option Allocation → Target → Option Observation
judge_ensure none t = none
judge_ensure (some r) t =
    if not (r.sidecar_id == t.sidecar_id)
    then some (refused request_conflict)
    else if ltb t.generation r.generation
    then some (refused stale_generation)
    else if nat_eq r.generation t.generation
    then some (if is_destroyed r.desired then refused generation_destroyed else observed r)
    else none

-- The checks of `observeDestroy`.
unfoldable pub judge_destroy : Option Allocation → Target → Option Observation
judge_destroy none t = none
judge_destroy (some r) t =
    if not (r.sidecar_id == t.sidecar_id)
    then some (refused request_conflict)
    else if ltb t.generation r.generation
    then some (refused stale_generation)
    else if nat_eq r.generation t.generation && is_destroyed r.desired
    then some (observed r)
    else none

abbrev pub ensured_record : Target → String → Allocation
ensured_record t now = record {
  allocation_id = t.allocation_id;
  sidecar_id = t.sidecar_id;
  generation = t.generation;
  desired = ensured;
  external_ref = none;
  updated_at = now;
}

-- `existing?.externalRef ?? null`
abbrev pub ref_of : Option Allocation → Option String
ref_of none = none
ref_of (some r) = r.external_ref

abbrev pub destroyed_record : Option Allocation → Target → String → Allocation
destroyed_record existing t now = record {
  allocation_id = t.allocation_id;
  sidecar_id = t.sidecar_id;
  generation = t.generation;
  desired = destroyed;
  external_ref = ref_of existing;
  updated_at = now;
}

-- The record that `recordUnit` may complete.
unfoldable pub recordable : Option Allocation → ℕ → Option Allocation
recordable none generation = none
recordable (some r) generation =
    if not (nat_eq r.generation generation) || is_destroyed r.desired then none else some r

-- The loop of `initialize` over the parsed rows: what was set before a duplicate stays set.
unfoldable pub load_rows : Dict Allocation → List Allocation → Dict Allocation × Option String
load_rows m [] = (m, none)
load_rows m (r ∷ rs) =
    let rest = load_rows (insert r.allocation_id r m) rs in
    if is_some (lookup r.allocation_id m) then (m, some r.allocation_id) else rest

module _ (c : Codec) where
  abbrev pub StoreAction : Type 0 → Type 0
  StoreAction A = Action (Store c) StoreFault A

  unfoldable pub finish_load : Dict Allocation × Option String → StoreAction (Unit {0})
  finish_load (m, none) s = (done tt, record s { memory = m; initialized = true })
  finish_load (m, some id) s = (thrown (duplicate id), record s { memory = m })

  unfoldable pub load : Parsed → StoreAction (Unit {0})
  unfolding finish_load is_allocation_record
  load bad_json s = (thrown invalid_json, s)
  load bad_shape s = (thrown invalid_state, s)
  load (rows rs) s =
      if all is_allocation_record rs
      then finish_load (load_rows s.memory rs) s
      else (thrown invalid_state, s)

  unfoldable pub read_state : Option (c.Contents) → StoreAction (Unit {0})
  unfolding load
  read_state none s = (done tt, record s { initialized = true })
  read_state (some contents) s = load (c.decode contents) s

  unfoldable pub initialize : StoreHost → StoreAction (Unit {0})
  unfolding read_state
  initialize host s =
      if s.initialized
      then (done tt, s)
      else if not host.directory_made
      then (thrown directory_failed, s)
      else if not host.readable
      then (thrown read_failed, s)
      else read_state s.disk s

  -- `persist`, through `writeFileAtomic`
  unfoldable pub persist : Write → Dict Allocation → StoreAction (Unit {0})
  persist written next s = (done tt, record s { disk = some (c.encode (values next)) })
  persist write_failed next s = (thrown persist_failed, s)
  persist sync_failed next s =
      (thrown persist_failed, record s { disk = some (c.encode (values next)) })

  -- The common end of the operations: the file first, then the map.
  unfoldable pub commit : Write → String → Allocation → StoreAction (Unit {0})
  unfolding persist
  commit write id r = do
    memory ← gets (λ s. s.memory)
    persist write (insert id r memory)
    modify (λ s. record s { memory = insert id r s.memory })

  unfoldable pub settle_ensure : StoreHost → Target → Option Observation → StoreAction Observation
  settle_ensure host t (some o) = pure o
  settle_ensure host t none = do
    commit host.write t.allocation_id (ensured_record t host.now)
    pure (observed (ensured_record t host.now))

  unfoldable pub observe_ensure : StoreHost → Target → StoreAction Observation
  unfolding settle_ensure
  observe_ensure host t = do
    initialize host
    existing ← gets (λ s. lookup t.allocation_id s.memory)
    settle_ensure host t (judge_ensure existing t)

  unfoldable pub settle_destroy :
      StoreHost → Target → Option Allocation → Option Observation → StoreAction Observation
  settle_destroy host t existing (some o) = pure o
  settle_destroy host t existing none = do
    commit host.write t.allocation_id (destroyed_record existing t host.now)
    pure (observed (destroyed_record existing t host.now))

  unfoldable pub observe_destroy : StoreHost → Target → StoreAction Observation
  unfolding settle_destroy
  observe_destroy host t = do
    initialize host
    existing ← gets (λ s. lookup t.allocation_id s.memory)
    settle_destroy host t existing (judge_destroy existing t)

  unfoldable pub settle_unit : StoreHost → String → String → Option Allocation → StoreAction Bool
  settle_unit host id ref none = pure false
  settle_unit host id ref (some r) = do
    commit host.write id (record r { external_ref = some ref; updated_at = host.now })
    pure true

  unfoldable pub record_unit : StoreHost → String → ℕ → String → StoreAction Bool
  unfolding settle_unit
  record_unit host id generation ref = do
    initialize host
    existing ← gets (λ s. lookup id s.memory)
    settle_unit host id ref (recordable existing generation)
