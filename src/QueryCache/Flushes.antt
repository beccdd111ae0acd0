-- ===== src/QueryCache/Flushes.antt =====
-- A flush stores what the events want, and is scheduled whenever something is pending.
use workbench.Prelude.{
  ◌≡◌, refl, sym, ap, ◌∙◌, ◌⊎◌, inl, inr, String, ◌==◌, eq_iff, Bool, true, false, ◌||◌, Option,
  none, some, List, [], ◌∷◌, contains, Dict, lookup, insert, values, lookup-insert, Bool-cases,
  if◌then◌else◌, arith,
}
use workbench.QueryCache.{
  forget, Entry, CacheEvent, Pending, nothing_pending, schedule_flush, evict, set_pending,
  observe_all, delete_all, put_all, flush,
}
use workbench.QueryCache.Upheld.{Upheld, observe_all_upheld}
use workbench.QueryCache.Intents.{
  lookup-forget, Intent, stay, put, drop, intent_of, write_of, is_drop, observe_all-IsPending,
}

module _ {Key Data : Type 0} where
  -- Every entry stands under its own hash, once.
  abbrev pub IsKeyed : Dict (Entry Key Data) → Type 0
  IsKeyed [] = Unit {0}
  IsKeyed ((k, e) ∷ m) = (k ≡ e.query_hash) × (lookup k m ≡ none) × IsKeyed m

  insert-IsKeyed :
      (e : Entry Key Data) (m : Dict (Entry Key Data))
      → IsKeyed m
      → IsKeyed (insert e.query_hash e m)
  unfolding insert lookup
  insert-IsKeyed e [] h = (refl, refl, tt)
  insert-IsKeyed e ((k, old) ∷ m) (own, once, rest) = elim (Bool-cases (k == e.query_hash)) [
    | inl f ↦ rw (f) ((eq_iff k e.query_hash).0 f, once, rest)
    | inr f ↦ rw (f) (
      own,
      rw (lookup-insert e.query_hash k e m)
          (ground (arith, once, eq_iff k e.query_hash, eq_iff e.query_hash k)),
      insert-IsKeyed e m rest,
    )
  ]

  forget-IsKeyed : (hash : String) (m : Dict (Entry Key Data)) → IsKeyed m → IsKeyed (forget hash m)
  unfolding forget
  forget-IsKeyed hash [] h = tt
  forget-IsKeyed hash ((k, e) ∷ m) (own, once, rest) = elim (Bool-cases (k == hash)) [
    | inl f ↦ rw (f) (forget-IsKeyed hash m rest)
    | inr f ↦
        rw (f) (own, lookup-forget hash k m ∙ ground (arith, once), forget-IsKeyed hash m rest)
  ]

  abbrev pub HasKeys : Pending Key Data → Type 0
  HasKeys s = IsKeyed s.pending_writes

  schedule_flush-HasKeys :
      (debounced : Bool) (s : Pending Key Data) → HasKeys s → HasKeys (schedule_flush debounced s)
  unfolding schedule_flush
  schedule_flush-HasKeys true s h = h
  schedule_flush-HasKeys false s h = h

  keys_upheld : Upheld HasKeys
  unfolding schedule_flush set_pending evict
  keys_upheld = record {
    persisted = λ debounced e s h.
        schedule_flush-HasKeys debounced (set_pending e s) (insert-IsKeyed e s.pending_writes h);
    evicted = λ debounced hash s h.
        schedule_flush-HasKeys debounced (evict hash s) (forget-IsKeyed hash s.pending_writes h);
    forgotten = λ hash s h. forget-IsKeyed hash s.pending_writes h;
  }

  lookup-delete_all :
      (hs : List String) (hash : String) (db : Dict (Entry Key Data))
      → lookup hash (delete_all hs db) ≡ (if contains hs hash then none else lookup hash db)
  unfolding delete_all contains
  lookup-delete_all [] hash db = refl
  lookup-delete_all (h ∷ hs) hash db =
      ground (arith, lookup-delete_all hs hash (forget h db), lookup-forget h hash db)

  abbrev pub first_found :
      Option (Entry Key Data) → Option (Entry Key Data) → Option (Entry Key Data)
  first_found none other = other
  first_found (some e) other = some e

  lookup-put_all :
      (m : Dict (Entry Key Data)) (hash : String) (db : Dict (Entry Key Data))
      → IsKeyed m
      → lookup hash (put_all (values m) db) ≡ first_found (lookup hash m) (lookup hash db)
  unfolding put_all lookup
  lookup-put_all [] hash db h = refl
  lookup-put_all ((k, e) ∷ m) hash db (own, once, rest) = elim (Bool-cases (k == hash)) [
    | inl f ↦
        let absent : lookup hash m ≡ none =
          ap (λ j. lookup j m) (sym ((eq_iff k hash).0 f)) ∙ once in
        rw (f) (
          lookup-put_all m hash (insert e.query_hash e db) rest
          ∙ rw (absent, lookup-insert e.query_hash hash e db, sym own, f) refl)
    | inr f ↦ rw (f) (
        lookup-put_all m hash (insert e.query_hash e db) rest
        ∙ ap (first_found (lookup hash m))
            (lookup-insert e.query_hash hash e db ∙ rw (sym own, f) refl))
  ]

  -- With what the events wanted of a hash, and what is stored under it: what a flush stores there
  abbrev pub after_flush : Intent Key Data → Option (Entry Key Data) → Option (Entry Key Data)
  after_flush stay before = before
  after_flush (put e) before = some e
  after_flush drop before = none

  first_found-after_flush :
      (i : Intent Key Data) (before : Option (Entry Key Data))
      → first_found (write_of i) (if is_drop i then none else before) ≡ after_flush i before
  first_found-after_flush stay before = refl
  first_found-after_flush (put e) before = refl
  first_found-after_flush drop before = refl

  -- After any events, a flush that works leaves nothing pending, and stores under each hash what the
  -- events of that hash want, one after the other: a successful fetch with a time above 0 wants its data
  -- stored; a removal, or an invalidation of data with a time above 0, wants nothing stored there; an
  -- invalidation of data with time 0 takes back a write that is wanted, so that the entry stays as it is
  -- in the database, also where a removal came before that write; any other event leaves what was wanted.
  -- Where nothing is wanted, the database stays as it was there.
  pub flush_lem :
      (debounced : Bool) (es : List (CacheEvent Key Data)) (db : Dict (Entry Key Data))
      (hash : String)
      → ((flush true (observe_all debounced es nothing_pending) db).0 ≡ nothing_pending)
        × (lookup hash (flush true (observe_all debounced es nothing_pending) db).1
            ≡ after_flush (intent_of hash es stay) (lookup hash db))
  unfolding flush lookup contains
  flush_lem debounced es db hash =
      let s = observe_all debounced es nothing_pending in
      let (written, deleted) =
        observe_all-IsPending es debounced hash nothing_pending stay (refl, refl) in
      let keyed = observe_all_upheld HasKeys keys_upheld es debounced nothing_pending tt in
      (
        refl,
        lookup-put_all s.pending_writes hash (delete_all s.pending_deletes db) keyed
            ∙ rw (lookup-delete_all s.pending_deletes hash db, written, deleted)
                (first_found-after_flush (intent_of hash es stay) (lookup hash db)),
      )

  -- Nothing is pending, or a flush is scheduled.
  abbrev pub HasFlush : Pending Key Data → Type 0
  HasFlush s =
      ((s.pending_writes ≡ []) × (s.pending_deletes ≡ []))
      ⊎ ((s.timer || s.microtask_scheduled) ≡ true)

  schedule_flush-HasFlush :
      (debounced : Bool) (s : Pending Key Data) → HasFlush (schedule_flush debounced s)
  unfolding schedule_flush
  schedule_flush-HasFlush true s = inr refl
  schedule_flush-HasFlush false s = inr (ground arith)

  forget-HasFlush :
      (hash : String) (s : Pending Key Data)
      → HasFlush s
      → HasFlush (record s { pending_writes = forget hash s.pending_writes })
  unfolding forget
  forget-HasFlush hash s (inl (no_writes, no_deletes)) = inl (rw (no_writes) refl, no_deletes)
  forget-HasFlush hash s (inr scheduled) = inr scheduled

  flush_upheld : Upheld HasFlush
  flush_upheld = record {
    persisted = λ debounced e s h. schedule_flush-HasFlush debounced (set_pending e s);
    evicted = λ debounced hash s h. schedule_flush-HasFlush debounced (evict hash s);
    forgotten = forget-HasFlush;
  }

  -- After any events, from a state where nothing is pending or a flush is scheduled, again nothing is
  -- pending or a flush is scheduled.
  pub observe_all-HasFlush :
      (debounced : Bool) (es : List (CacheEvent Key Data)) (s : Pending Key Data)
      → HasFlush s
      → HasFlush (observe_all debounced es s)
  observe_all-HasFlush debounced es s h = observe_all_upheld HasFlush flush_upheld es debounced s h
