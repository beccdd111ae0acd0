-- ===== src/QueryCache/Intents.antt =====
-- What is pending for each hash is what the events want of it, one after the other.
use workbench.Prelude.{
  ◌≡◌, refl, sym, ◌∙◌, inl, inr, String, ◌==◌, eq_iff, Bool, true, false, not, ◌&&◌, Option, none,
  some, List, [], ◌∷◌, contains, contains-add, contains-keep, Dict, lookup, lookup-insert, ltb,
  Bool-cases, if◌then◌else◌, arith,
}
use workbench.QueryCache.{
  forget, discard, Entry, CacheEvent, EventType, added, removed, updated, observed_otherwise,
  Pending, schedule_flush, evict, set_pending, observe_data, observe_state, observe, observe_all,
}

pub lookup-forget :
    {V : Type 0} (k other : String) (m : Dict V)
    → lookup other (forget k m) ≡ (if k == other then none else lookup other m)
unfolding forget lookup
lookup-forget k other [] = ground arith
lookup-forget k other ((j, v) ∷ m) =
    ground (arith, lookup-forget k other m, eq_iff j k, eq_iff j other, eq_iff k other)

contains-discard :
    (k other : String) (ks : List String)
    → contains (discard k ks) other ≡ (contains ks other && not (k == other))
contains-discard k other ks =
    ground (arith, contains-keep (λ j. not (j == k)) ks other, eq_iff other k, eq_iff k other)

-- What the events want of the entry of one hash: nothing, so that it stays as it is stored, or an
-- entry to be written, or none.
pub data Intent (Key Data : Type 0) : Type 0 where
  stay : Intent Key Data
  put : Entry Key Data → Intent Key Data
  drop : Intent Key Data

module _ {Key Data : Type 0} where
  -- An invalidation of data with time 0 takes back a write; what was wanted before that write is forgotten.
  abbrev pub taken_back : Intent Key Data → Intent Key Data
  taken_back stay = stay
  taken_back (put e) = stay
  taken_back drop = drop

  abbrev pub wanted_data : CacheEvent Key Data → Option Data → Intent Key Data → Intent Key Data
  wanted_data e none i = i
  wanted_data e (some found) i =
      if e.is_success && ltb 0 e.data_updated_at
      then put (record {
        query_hash = e.query_hash;
        query_key = e.query_key;
        query_data = found;
        data_updated_at = e.data_updated_at;
      })
      else i

  abbrev pub wanted_state : CacheEvent Key Data → Intent Key Data → Intent Key Data
  wanted_state e i =
      if e.is_invalidated
      then if ltb 0 e.data_updated_at then drop else taken_back i
      else wanted_data e e.query_data i

  abbrev pub wanted_kind : EventType → CacheEvent Key Data → Intent Key Data → Intent Key Data
  wanted_kind added e i = wanted_state e i
  wanted_kind removed e i = drop
  wanted_kind updated e i = wanted_state e i
  wanted_kind observed_otherwise e i = i

  -- The intent of the events for one hash, from the intent before them
  unfoldable pub intent_of : String → List (CacheEvent Key Data) → Intent Key Data → Intent Key Data
  intent_of hash [] i = i
  intent_of hash (e ∷ es) i =
      intent_of hash es (if e.query_hash == hash then wanted_kind e.kind e i else i)

  abbrev pub write_of : Intent Key Data → Option (Entry Key Data)
  write_of stay = none
  write_of (put e) = some e
  write_of drop = none

  abbrev pub is_drop : Intent Key Data → Bool
  is_drop stay = false
  is_drop (put e) = false
  is_drop drop = true

  -- For the hash, the intent is pending.
  abbrev pub IsPending : String → Pending Key Data → Intent Key Data → Type 0
  IsPending hash s i =
      (lookup hash s.pending_writes ≡ write_of i) × (contains s.pending_deletes hash ≡ is_drop i)

  schedule_flush-IsPending :
      (debounced : Bool) (hash : String) (s : Pending Key Data) (i : Intent Key Data)
      → IsPending hash s i
      → IsPending hash (schedule_flush debounced s) i
  unfolding schedule_flush
  schedule_flush-IsPending true hash s i h = h
  schedule_flush-IsPending false hash s i h = h

  evict-IsPending :
      (hash other : String) (s : Pending Key Data) (i : Intent Key Data)
      → IsPending hash s i
      → IsPending hash (evict other s) (if other == hash then drop else i)
  unfolding evict
  evict-IsPending hash other s i (written, deleted) = elim (Bool-cases (other == hash)) [
    | inl e ↦ (
      rw (lookup-forget other hash s.pending_writes, e) refl,
      rw (contains-add s.pending_deletes other hash, e) (ground arith),
    )
    | inr e ↦ (
      rw (lookup-forget other hash s.pending_writes, e) written,
      rw (contains-add s.pending_deletes other hash, e) (ground (arith, deleted)),
    )
  ]

  set_pending-IsPending :
      (hash : String) (e : Entry Key Data) (s : Pending Key Data) (i : Intent Key Data)
      → IsPending hash s i
      → IsPending hash (set_pending e s) (if e.query_hash == hash then put e else i)
  unfolding set_pending
  set_pending-IsPending hash e s i (written, deleted) = elim (Bool-cases (e.query_hash == hash)) [
    | inl f ↦ (
      rw (lookup-insert e.query_hash hash e s.pending_writes, f) refl,
      contains-discard e.query_hash hash s.pending_deletes ∙ rw (f) (ground arith),
    )
    | inr f ↦ (
      rw (lookup-insert e.query_hash hash e s.pending_writes, f) written,
      contains-discard e.query_hash hash s.pending_deletes ∙ rw (f) (ground (arith, deleted)),
    )
  ]

  write_of-taken_back : (i : Intent Key Data) → write_of (taken_back i) ≡ none
  write_of-taken_back stay = refl
  write_of-taken_back (put e) = refl
  write_of-taken_back drop = refl

  is_drop-taken_back : (i : Intent Key Data) → is_drop (taken_back i) ≡ is_drop i
  is_drop-taken_back stay = refl
  is_drop-taken_back (put e) = refl
  is_drop-taken_back drop = refl

  forget-IsPending :
      (hash other : String) (s : Pending Key Data) (i : Intent Key Data)
      → IsPending hash s i
      → IsPending hash
          (record s { pending_writes = forget other s.pending_writes })
          (if other == hash then taken_back i else i)
  forget-IsPending hash other s i (written, deleted) = elim (Bool-cases (other == hash)) [
    | inl e ↦ (
      rw (lookup-forget other hash s.pending_writes, e) (sym (write_of-taken_back i)),
      rw (e) (deleted ∙ sym (is_drop-taken_back i)),
    )
    | inr e ↦ (rw (lookup-forget other hash s.pending_writes, e) written, rw (e) deleted)
  ]

  -- A branch of the code is a branch of the intent.
  if-IsPending :
      (hash : String) (b same : Bool) (s t : Pending Key Data) (i j k : Intent Key Data)
      → IsPending hash s (if same then i else k)
      → IsPending hash t (if same then j else k)
      → IsPending hash (if b then s else t) (if same then (if b then i else j) else k)
  if-IsPending hash true same s t i j k first second = first
  if-IsPending hash false same s t i j k first second = second

  either-IsPending :
      (hash : String) (same : Bool) (s : Pending Key Data) (i : Intent Key Data)
      → IsPending hash s i
      → IsPending hash s (if same then i else i)
  either-IsPending hash true s i h = h
  either-IsPending hash false s i h = h

  observe_data-IsPending :
      (debounced : Bool) (hash : String) (e : CacheEvent Key Data) (found : Option Data)
      (s : Pending Key Data) (i : Intent Key Data)
      → IsPending hash s i
      → IsPending hash
          (observe_data debounced e found s)
          (if e.query_hash == hash then wanted_data e found i else i)
  unfolding observe_data
  observe_data-IsPending debounced hash e none s i h = either-IsPending hash _ s i h
  observe_data-IsPending debounced hash e (some found) s i h =
      if-IsPending hash (e.is_success && ltb 0 e.data_updated_at) (e.query_hash == hash) _ s _ i i
        (schedule_flush-IsPending debounced hash _ _ (set_pending-IsPending hash _ s i h))
        (either-IsPending hash _ s i h)

  observe_state-IsPending :
      (debounced : Bool) (hash : String) (e : CacheEvent Key Data) (s : Pending Key Data)
      (i : Intent Key Data)
      → IsPending hash s i
      → IsPending hash
          (observe_state debounced e s)
          (if e.query_hash == hash then wanted_state e i else i)
  unfolding observe_state
  observe_state-IsPending debounced hash e s i h =
      if-IsPending hash e.is_invalidated (e.query_hash == hash) _ _ _ _ i
        (if-IsPending hash (ltb 0 e.data_updated_at) (e.query_hash == hash) _ _ drop (taken_back i)
          i (schedule_flush-IsPending debounced hash _ _ (evict-IsPending hash e.query_hash s i h))
          (forget-IsPending hash e.query_hash s i h))
        (observe_data-IsPending debounced hash e e.query_data s i h)

  observe-IsPending :
      (debounced : Bool) (hash : String) (e : CacheEvent Key Data) (s : Pending Key Data)
      (i : Intent Key Data)
      → IsPending hash s i
      → IsPending hash
          (observe debounced e s)
          (if e.query_hash == hash then wanted_kind e.kind e i else i)
  unfolding observe
  observe-IsPending debounced hash e s i h =
      elim e.kind
        as (λ kind.
          IsPending hash
            (elim kind [
              | added ↦ observe_state debounced e s
              | removed ↦ schedule_flush debounced (evict e.query_hash s)
              | updated ↦ observe_state debounced e s
              | observed_otherwise ↦ s
            ])
            (if e.query_hash == hash then wanted_kind kind e i else i)) [
              | added ↦ observe_state-IsPending debounced hash e s i h
              | removed ↦
                  schedule_flush-IsPending debounced hash _ _
                    (evict-IsPending hash e.query_hash s i h)
              | updated ↦ observe_state-IsPending debounced hash e s i h
              | observed_otherwise ↦ either-IsPending hash _ s i h
            ]

  pub observe_all-IsPending :
      (es : List (CacheEvent Key Data)) (debounced : Bool) (hash : String) (s : Pending Key Data)
      (i : Intent Key Data)
      → IsPending hash s i
      → IsPending hash (observe_all debounced es s) (intent_of hash es i)
  unfolding observe_all intent_of
  observe_all-IsPending [] debounced hash s i h = h
  observe_all-IsPending (e ∷ es) debounced hash s i h =
      observe_all-IsPending es debounced hash _ _ (observe-IsPending debounced hash e s i h)
