-- ===== src/QueryCache.antt =====
-- The cache of queries that the web client keeps over a reload
-- (apps/web/src/query-cache-persistence.ts). The database is a dictionary by the queries' hashes; a
-- flush reads and writes it at once, since the transactions on the one store run in their order.
-- TanStack Query's client is the parameter `Client`.
pub mod Intents
mod Upheld
pub mod Flushes
pub mod Hydration
mod Tests
use workbench.Prelude.{
  ℕ, ◌≡◌, ◌≢◌, String, ◌==◌, Bool, true, false, not, ◌&&◌, ◌||◌, Option, none, some, is_some, List,
  [], ◌∷◌, ◌++◌, keep, add, Dict, insert, values, ltb, leb, if◌then◌else◌,
}

-- `map.delete(k)`
unfoldable pub forget : {V : Type 0} → String → Dict V → Dict V
forget k m = keep (λ (e : String × _). not (e.0 == k)) m

-- `set.delete(k)`
abbrev pub discard : String → List String → List String
discard k ks = keep (λ j. not (j == k)) ks

-- `PersistedQueryEntry`
pub record Entry (Key Data : Type 0) : Type 0 where
  pub query_hash : String
  pub query_key : Key
  pub query_data : Data
  pub data_updated_at : ℕ

pub data EventType : Type 0 where
  added removed updated : EventType
  observed_otherwise : EventType

-- An event of the query cache, with what the handler reads of the query's state
pub record CacheEvent (Key Data : Type 0) : Type 0 where
  pub kind : EventType
  pub query_hash : String
  pub query_key : Key
  pub is_invalidated : Bool
  pub is_success : Bool
  pub query_data : Option Data
  pub data_updated_at : ℕ

-- The variables of `attachQueryCachePersistence`; a timer that is set is `true`.
pub record Pending (Key Data : Type 0) : Type 0 where
  pub pending_writes : Dict (Entry Key Data)
  pub pending_deletes : List String
  pub timer : Bool
  pub microtask_scheduled : Bool

module _ {Key Data : Type 0} where
  abbrev pub nothing_pending : Pending Key Data
  nothing_pending = record {
    pending_writes = [];
    pending_deletes = [];
    timer = false;
    microtask_scheduled = false;
  }

  -- With `debounce_ms` 0 or less, a microtask
  unfoldable pub schedule_flush : Bool → Pending Key Data → Pending Key Data
  schedule_flush debounced s =
      if debounced then record s { timer = true } else record s { microtask_scheduled = true }

  unfoldable pub evict : String → Pending Key Data → Pending Key Data
  unfolding forget add
  evict hash s = record s {
    pending_writes = forget hash s.pending_writes;
    pending_deletes = add s.pending_deletes hash;
  }

  unfoldable pub set_pending : Entry Key Data → Pending Key Data → Pending Key Data
  unfolding insert
  set_pending e s = record s {
    pending_writes = insert e.query_hash e s.pending_writes;
    pending_deletes = discard e.query_hash s.pending_deletes;
  }

  -- The `success` branch of an event
  unfoldable pub observe_data :
      Bool → CacheEvent Key Data → Option Data → Pending Key Data → Pending Key Data
  unfolding schedule_flush set_pending
  observe_data debounced e none s = s
  observe_data debounced e (some found) s =
      if e.is_success && ltb 0 e.data_updated_at
      then schedule_flush debounced (
          set_pending
            (record {
              query_hash = e.query_hash;
              query_key = e.query_key;
              query_data = found;
              data_updated_at = e.data_updated_at;
            })
            s)
      else s

  unfoldable pub observe_state : Bool → CacheEvent Key Data → Pending Key Data → Pending Key Data
  unfolding observe_data schedule_flush evict forget
  observe_state debounced e s =
      if e.is_invalidated
      then if ltb 0 e.data_updated_at
        then schedule_flush debounced (evict e.query_hash s)
        else record s { pending_writes = forget e.query_hash s.pending_writes }
      else observe_data debounced e e.query_data s

  -- The handler that is subscribed to the cache
  unfoldable pub observe : Bool → CacheEvent Key Data → Pending Key Data → Pending Key Data
  unfolding observe_state schedule_flush evict
  observe debounced e s = elim e.kind [
    | added ↦ observe_state debounced e s
    | removed ↦ schedule_flush debounced (evict e.query_hash s)
    | updated ↦ observe_state debounced e s
    | observed_otherwise ↦ s
  ]

  -- `store.delete` of each hash
  unfoldable pub delete_all : List String → Dict (Entry Key Data) → Dict (Entry Key Data)
  unfolding forget
  delete_all [] db = db
  delete_all (h ∷ hs) db = delete_all hs (forget h db)

  -- `store.put` of each entry, under its hash
  unfoldable pub put_all : List (Entry Key Data) → Dict (Entry Key Data) → Dict (Entry Key Data)
  unfolding insert
  put_all [] db = db
  put_all (e ∷ es) db = put_all es (insert e.query_hash e db)

  -- `flush`: what is pending after it, and the database. A database that cannot be opened or written
  -- stays as it is.
  unfoldable pub flush :
      Bool → Pending Key Data → Dict (Entry Key Data) → Pending Key Data × Dict (Entry Key Data)
  unfolding delete_all put_all
  flush works s db = (
    nothing_pending,
    if works then put_all (values s.pending_writes) (delete_all s.pending_deletes db) else db,
  )

  -- `unsubscribe`: a timer is cancelled, and what is pending stays so.
  unfoldable pub unsubscribe : Pending Key Data → Pending Key Data
  unsubscribe s = record s { timer = false; microtask_scheduled = false }

  unfoldable pub observe_all :
      Bool → List (CacheEvent Key Data) → Pending Key Data → Pending Key Data
  unfolding observe
  observe_all debounced [] s = s
  observe_all debounced (e ∷ es) s = observe_all debounced es (observe debounced e s)

-- What `getQueryState` gives: whether there are data, and whether a fetch is running
pub record QueryState : Type 0 where
  pub has_data : Bool
  pub is_fetching : Bool

-- TanStack Query's client: a query's state, and the calls that change it. Queries are told apart by
-- their hashes.
pub record Client (Key Data : Type 0) : Type 1 where
  pub State : Type 0
  pub hash_of : Key → String
  pub query_state : State → Key → Option QueryState
  pub set_query_data : State → Key → Data → State
  pub same_hash :
      (s : State) (j k : Key) → hash_of j ≡ hash_of k → query_state s j ≡ query_state s k
  pub query_state-set_query_data :
      (s : State) (j k : Key) (d : Data)
      → hash_of j ≢ hash_of k
      → query_state (set_query_data s j d) k ≡ query_state s k

-- `existing !== undefined && (…)`
abbrev pub is_busy : Option QueryState → Bool
is_busy none = false
is_busy (some q) = q.has_data || q.is_fetching

-- `hydrateQueryClientFromIndexedDB`, from the entries that the store gave on: the client's state, and
-- the keys whose queries are then invalidated. The schema is a parameter.
module _ {Key Data Raw : Type 0} (client : Client Key Data)
    (schema : Raw → Option (Entry Key Data)) where
  abbrev pub seed : Entry Key Data → client.State × List Key → client.State × List Key
  seed e (s, keys) = (client.set_query_data s e.query_key e.query_data, keys ++ e.query_key ∷ [])

  unfoldable pub hydrate_entry :
      ℕ → Option (Entry Key Data) → client.State × List Key → client.State × List Key
  hydrate_entry min_updated_at none now = now
  hydrate_entry min_updated_at (some e) now =
      if ltb e.data_updated_at min_updated_at || is_busy (client.query_state now.0 e.query_key)
      then now
      else seed e now

  unfoldable pub hydrate : ℕ → List Raw → client.State × List Key → client.State × List Key
  unfolding hydrate_entry
  hydrate min_updated_at [] now = now
  hydrate min_updated_at (raw ∷ raws) now =
      hydrate min_updated_at raws (hydrate_entry min_updated_at (schema raw) now)
