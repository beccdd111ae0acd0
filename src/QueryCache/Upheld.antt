-- ===== src/QueryCache/Upheld.antt =====
-- What the handler of the cache's events upholds, change by change.
use workbench.Prelude.{
  String, Bool, true, false, ◌&&◌, Option, none, some, List, [], ◌∷◌, ltb, if◌then◌else◌,
}
use workbench.QueryCache.{
  forget, Entry, CacheEvent, added, removed, updated, observed_otherwise, Pending, schedule_flush,
  evict, set_pending, observe_data, observe_state, observe, observe_all,
}

module _ {Key Data : Type 0} where
  -- What the three changes of the handler uphold
  pub record Upheld (P : Pending Key Data → Type 0) : Type 0 where
    pub persisted :
        (debounced : Bool) (e : Entry Key Data) (s : Pending Key Data)
        → P s
        → P (schedule_flush debounced (set_pending e s))
    pub evicted :
        (debounced : Bool) (hash : String) (s : Pending Key Data)
        → P s
        → P (schedule_flush debounced (evict hash s))
    pub forgotten :
        (hash : String) (s : Pending Key Data)
        → P s
        → P (record s { pending_writes = forget hash s.pending_writes })

module _ {Key Data : Type 0} (P : Pending Key Data → Type 0) (upheld : Upheld P) where
  if_upheld : (b : Bool) (s t : Pending Key Data) → P s → P t → P (if b then s else t)
  if_upheld true s t h k = h
  if_upheld false s t h k = k

  observe_data_upheld :
      (debounced : Bool) (e : CacheEvent Key Data) (found : Option Data) (s : Pending Key Data)
      → P s
      → P (observe_data debounced e found s)
  unfolding observe_data
  observe_data_upheld debounced e none s h = h
  observe_data_upheld debounced e (some found) s h =
      if_upheld (e.is_success && ltb 0 e.data_updated_at) _ s (upheld.persisted debounced _ s h) h

  observe_state_upheld :
      (debounced : Bool) (e : CacheEvent Key Data) (s : Pending Key Data)
      → P s
      → P (observe_state debounced e s)
  unfolding observe_state
  observe_state_upheld debounced e s h =
      if_upheld e.is_invalidated _ _
        (if_upheld (ltb 0 e.data_updated_at) _ _ (upheld.evicted debounced e.query_hash s h)
          (upheld.forgotten e.query_hash s h))
        (observe_data_upheld debounced e e.query_data s h)

  observe_upheld :
      (debounced : Bool) (e : CacheEvent Key Data) (s : Pending Key Data)
      → P s
      → P (observe debounced e s)
  unfolding observe
  observe_upheld debounced e s h =
      elim e.kind
        as (λ kind. P (elim kind [
          | added ↦ observe_state debounced e s
          | removed ↦ schedule_flush debounced (evict e.query_hash s)
          | updated ↦ observe_state debounced e s
          | observed_otherwise ↦ s
        ])) [
          | added ↦ observe_state_upheld debounced e s h
          | removed ↦ upheld.evicted debounced e.query_hash s h
          | updated ↦ observe_state_upheld debounced e s h
          | observed_otherwise ↦ h
        ]

  pub observe_all_upheld :
      (es : List (CacheEvent Key Data)) (debounced : Bool) (s : Pending Key Data)
      → P s
      → P (observe_all debounced es s)
  unfolding observe_all
  observe_all_upheld [] debounced s h = h
  observe_all_upheld (e ∷ es) debounced s h =
      observe_all_upheld es debounced _ (observe_upheld debounced e s h)
