-- ===== src/QueryCache/Tests.antt =====
-- Runs of the persistence of the query cache, with texts as keys and numbers as data.
use workbench.Prelude.{
  ℕ, ◌≡◌, refl, ap, ◌≢◌, inl, inr, String, ◌==◌, eq_iff, Bool, true, false, Bool-cases, Option,
  none, some, List, [], ◌∷◌, Dict, lookup, insert, lookup-insert, contains, add,
}
use workbench.QueryCache.{
  forget, Entry, CacheEvent, EventType, added, removed, updated, nothing_pending, schedule_flush,
  evict, set_pending, observe_data, observe_state, observe, observe_all, delete_all, put_all, flush,
  unsubscribe, QueryState, Client, hydrate_entry, hydrate,
}
use workbench.QueryCache.Intents.{stay, intent_of}
use workbench.QueryCache.Flushes.{after_flush, flush_lem}

abbrev event : EventType → String → Bool → ℕ → ℕ → CacheEvent String ℕ
event kind hash invalidated found at = record {
  kind = kind;
  query_hash = hash;
  query_key = hash;
  is_invalidated = invalidated;
  is_success = true;
  query_data = some found;
  data_updated_at = at;
}

abbrev entry : String → ℕ → ℕ → Entry String ℕ
entry hash found at = record {
  query_hash = hash;
  query_key = hash;
  query_data = found;
  data_updated_at = at;
}

-- "a" is written and removed, "b" is invalidated and written anew, "c" is written and invalidated while
-- it is a seed.
abbrev events : List (CacheEvent String ℕ)
events =
    event updated "a" false 1 10
    ∷ event updated "b" true 2 20
    ∷ event removed "a" false 1 10
    ∷ event added "b" false 3 30
    ∷ event updated "c" false 4 40
    ∷ event updated "c" true 4 0
    ∷ []

abbrev database : Dict (Entry String ℕ)
database = ("a", entry "a" 7 5) ∷ ("c", entry "c" 8 6) ∷ []

flush_test :
    (flush true (observe_all false events nothing_pending) database).1
    ≡ ("c", entry "c" 8 6) ∷ ("b", entry "b" 3 30) ∷ []
unfolding flush observe_all observe observe_state observe_data schedule_flush evict set_pending
    forget delete_all put_all insert add contains
flush_test = refl

flush_lem_example :
    ((flush true (observe_all false events nothing_pending) database).0 ≡ nothing_pending)
    × (lookup "b" (flush true (observe_all false events nothing_pending) database).1
        ≡ after_flush (intent_of "b" events stay) (lookup "b" database))
flush_lem_example = flush_lem false events database "b"

-- Whoever unsubscribes before the timer leaves a write behind that no flush is scheduled for.
unsubscribe_drops :
    unsubscribe (observe true (event updated "a" false 1 10) nothing_pending) ≡ record {
      pending_writes = ("a", entry "a" 1 10) ∷ [];
      pending_deletes = [];
      timer = false;
      microtask_scheduled = false;
    }
unfolding unsubscribe observe observe_state observe_data schedule_flush set_pending insert
unsubscribe_drops = refl

-- A client that keeps whether a query has data, under its key
abbrev seeded : QueryState
seeded = record { has_data = true; is_fetching = false }

simple_get-set :
    (s : Dict QueryState) (j k : String) (d : ℕ) → j ≢ k → lookup k (insert j seeded s) ≡ lookup k s
simple_get-set s j k d other = elim (Bool-cases (j == k)) [
  | inl e ↦ absurd (other ((eq_iff j k).0 e))
  | inr e ↦ rw (lookup-insert j k seeded s, e) refl
]

abbrev simple_client : Client String ℕ
simple_client = record {
  State = Dict QueryState;
  hash_of = λ k. k;
  query_state = λ s k. lookup k s;
  set_query_data = λ s k d. insert k seeded s;
  same_hash = λ s j k h. ap (λ i. lookup i s) h;
  query_state-set_query_data = simple_get-set;
}

abbrev raw_entries : List (Option (Entry String ℕ))
raw_entries = some (entry "a" 1 50) ∷ none ∷ some (entry "b" 2 50) ∷ some (entry "c" 3 5) ∷ []

-- "b" is being fetched.
abbrev on_boot : Dict QueryState
on_boot = ("b", record { has_data = false; is_fetching = true }) ∷ []

hydrate_test :
    (hydrate simple_client (λ (r : Option (Entry String ℕ)). r) 10 raw_entries (on_boot, [])).1
    ≡ "a" ∷ []
unfolding hydrate hydrate_entry lookup insert
hydrate_test = refl
