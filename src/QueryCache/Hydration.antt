-- ===== src/QueryCache/Hydration.antt =====
-- Hydration leaves the queries alone that have data or are fetched.
use workbench.Prelude.{
  ℕ, ◌≡◌, ◌≢◌, refl, ap, ◌∙◌, inl, inr, true, false, Option, none, some, List, [], ◌∷◌, ltb,
  Bool-cases, All, All-append,
}
use workbench.QueryCache.{Entry, Client, is_busy, seed, hydrate_entry, hydrate}

module _ {Key Data Raw : Type 0} (client : Client Key Data) (schema : Raw → Option (Entry Key Data))
    (k : Key) where
  -- The query is as in the state before, and none of the keys is its key.
  abbrev pub IsSpared : client.State → client.State × List Key → Type 0
  IsSpared before (s, keys) =
      (client.query_state s k ≡ client.query_state before k)
      × All (λ (j : Key). client.hash_of j ≢ client.hash_of k) keys

  seed-IsSpared :
      (e : Entry Key Data) (before s : client.State) (keys : List Key)
      → client.hash_of e.query_key ≢ client.hash_of k
      → client.query_state s k ≡ client.query_state before k
      → All (λ (j : Key). client.hash_of j ≢ client.hash_of k) keys
      → IsSpared before (seed client schema e (s, keys))
  seed-IsSpared e before s keys other same others = (
    client.query_state-set_query_data s e.query_key k e.query_data other ∙ same,
    All-append (λ (j : Key). client.hash_of j ≢ client.hash_of k) keys (e.query_key ∷ []) others
        (other, tt),
  )

  -- A query that is not busy has not the hash of one that is.
  different :
      (e : Entry Key Data) (before s : client.State)
      → is_busy (client.query_state before k) ≡ true
      → client.query_state s k ≡ client.query_state before k
      → is_busy (client.query_state s e.query_key) ≡ false
      → client.hash_of e.query_key ≢ client.hash_of k
  different e before s busy same idle hash =
      absurd (cc (ap is_busy (client.same_hash s e.query_key k hash ∙ same)))

  hydrate_entry-IsSpared :
      (min_updated_at : ℕ) (found : Option (Entry Key Data)) (before : client.State)
      (now : client.State × List Key)
      → is_busy (client.query_state before k) ≡ true
      → IsSpared before now
      → IsSpared before (hydrate_entry client schema min_updated_at found now)
  unfolding hydrate_entry
  hydrate_entry-IsSpared min_updated_at none before now busy h = h
  hydrate_entry-IsSpared min_updated_at (some e) before (s, keys) busy (same, others) =
      let stale = ltb e.data_updated_at min_updated_at in
      let taken = is_busy (client.query_state s e.query_key) in
      elim (Bool-cases stale) [
        | inl t ↦ rw (t) (same, others)
        | inr t ↦ rw (t) (elim (Bool-cases taken) [
          | inl f ↦ rw (f) (same, others)
          | inr f ↦
              rw (f) (seed-IsSpared e before s keys (different e before s busy same f) same others)
        ])
      ]

  hydrate-IsSpared :
      (raws : List Raw) (min_updated_at : ℕ) (before : client.State) (now : client.State × List Key)
      → is_busy (client.query_state before k) ≡ true
      → IsSpared before now
      → IsSpared before (hydrate client schema min_updated_at raws now)
  unfolding hydrate
  hydrate-IsSpared [] min_updated_at before now busy h = h
  hydrate-IsSpared (raw ∷ raws) min_updated_at before now busy h =
      hydrate-IsSpared raws min_updated_at before _ busy
        (hydrate_entry-IsSpared min_updated_at (schema raw) before now busy h)

  -- Whatever entries the database has, a query that has data, or is being fetched, when the hydration
  -- starts is afterwards as it was, and it is not among the queries that are then invalidated.
  pub hydrate-spares :
      (min_updated_at : ℕ) (raws : List Raw) (s : client.State)
      → is_busy (client.query_state s k) ≡ true
      → (client.query_state (hydrate client schema min_updated_at raws (s, [])).0 k
          ≡ client.query_state s k)
        × All
            (λ (j : Key). client.hash_of j ≢ client.hash_of k)
            (hydrate client schema min_updated_at raws (s, [])).1
  hydrate-spares min_updated_at raws s busy =
      hydrate-IsSpared raws min_updated_at s (s, []) busy (refl, tt)
