-- ===== src/Provision/Destruction.antt =====
-- What a confirmed destroy request leaves, and what it can miss.
use workbench.Prelude.{
  ◌≢◌, ◌⊎◌, ◌<◌, some_eq, Bool-cases, ltb, ◌≡◌, refl, sym, ap, ◌∙◌, subst, String, Option, none,
  some, [], ◌∷◌, arith, inl, inr, lookup,
}
use workbench.Prelude.Action.{done, resume}
use workbench.Provision.Store.{Codec, Store, Allocation, observed, destroyed}
use workbench.Provision.Store.Sound.{known, IsSound}
use workbench.Provision.Store.Advance.{Advances}
use workbench.Provision.Store.Changes.{Progress}
use workbench.Provision.Store.History.{Reach, Reach-Kept, Step-Kept, destroy as destroy_step}
use workbench.Provision.Refs.{Numerals, UnitRef, parse_external_ref}
use workbench.Provision.Units.{World, Host, stop_unit}
use workbench.Provision.Accounted.{
  validate_destroy-some, caught-confirmed, IsDestroyed, Accounted, account, destroy_observed-store,
}
use workbench.Provision.Acceptance.{pair_of}
use workbench.Provision.Stopping.{IsStopped, stop_unit-IsStopped}
use workbench.Provision.Requests.{
  Others, DestroyRequest, destroy_confirmed, destroy_target, or_reject, refs_to_stop, stop_all,
  destroy_observed, destroy,
}

-- The one reference that `destroy` knows of without looking at the disk.
abbrev pub named_ref : Option String → Option String → Option String
named_ref (some ref) recorded = some ref
named_ref none recorded = recorded

abbrev some_of : String → Option String → String
some_of ref none = ref
some_of ref (some a) = a

module _ (c : Codec) (js : Numerals) (host : Host) (others : Others c) where
  stop_all-one :
      (ref : String) (u : UnitRef) (w v : World c)
      → parse_external_ref js ref ≡ some u
      → stop_all c js host (ref ∷ []) w ≡ (done destroy_confirmed, v)
      → IsStopped c js host u v
  unfolding stop_all or_reject
  stop_all-one ref u w v p h =
      let stopped = stop_unit c js host ref w in
      let (ok, e) = caught-confirmed "destroy_unit_failed" stopped.0 _ stopped.1 v h in
      stop_unit-IsStopped c js host ref u w v p
        (pair_of stopped ok ∙ ap (λ x. (done tt, x)) (ap (λ x. x.1) e))

  -- The store knows of the record's allocation that this generation is destroyed, or a later generation.
  abbrev pub IsOver : DestroyRequest → Allocation → Store c → Type 0
  IsOver q r s =
      (l : Allocation) × (lookup q.allocation_id (known c s) ≡ some l)
      × ((r.generation < l.generation) ⊎ ((l.generation ≡ r.generation) × (l.desired ≡ destroyed)))

  Advances-IsOver :
      (q : DestroyRequest) (r : Allocation) (s : Store c) (o : Option Allocation)
      → r.desired ≡ destroyed
      → lookup q.allocation_id (known c s) ≡ o
      → Advances (some r) o
      → IsOver q r s
  Advances-IsOver q r s none gone e a = absurd a
  Advances-IsOver q r s (some l) gone e a = (
    l,
    e,
    elim (Bool-cases (ltb r.generation l.generation)) [
      | inl later ↦ inl (ground (arith, later))
      | inr stuck ↦
          let same : r.generation ≡ l.generation = ground (arith, a.1, stuck) in
          inr (sym same, a.2 same gone)
    ],
  )

  -- From a world with a sound store, and whatever requests, failed writes and restarts of the hub change
  -- the store once the destroy request is observed: if it is confirmed, where the host tells a time,
  -- then the store knew at that moment
  -- a record of the allocation, of the request's generation, that is destroyed. The store that is left is
  -- what the others made of the one of that moment; it knows a record of the allocation that is of that
  -- generation and destroyed, or of a later generation.
  pub destroy-IsDestroyed :
      (q : DestroyRequest) (w v : World c)
      → ((b : World c) → Reach c b.store ((others.once_observed) b).store)
      → host.observe.now ≢ ""
      → IsSound c w.store
      → destroy c js host others q w ≡ (done destroy_confirmed, v)
      → (r : Allocation) × (b : World c) × IsDestroyed c js host others q b r
        × (v.store ≡ ((others.once_observed) b).store)
        × IsOver q r v.store
  destroy-IsDestroyed q w v requests now h e =
      let a : Accounted c js host others (IsSound c) q v =
        account c js host others (IsSound c) q w v h
          (λ g valid.
            (Step-Kept c w.store h (
              destroy_step host.observe (destroy_target q g)
                ((validate_destroy-some q g valid).0, (validate_destroy-some q g valid).1, now))).0)
          e in
      let left : v.store ≡ ((others.once_observed) a.between).store =
        ap (λ x. x.1.store) (sym a.stopping)
        ∙ destroy_observed-store c js host others q a.unit a.between in
      let progress : Progress c a.between.store v.store =
        subst (λ s. Progress c a.between.store s) (sym left)
          (Reach-Kept c a.kept (requests a.between)).1 in
      (
        a.unit,
        a.between,
        a.settled,
        left,
        Advances-IsOver q a.unit v.store _ a.settled.gone refl (
            subst (λ o. Advances o (lookup q.allocation_id (known c v.store))) a.settled.found
              (progress q.allocation_id)),
      )

  refs_to_stop-named :
      (id ref : String) (asked recorded : Option String) (w : World c)
      → named_ref asked recorded ≡ some ref
      → refs_to_stop c js host id asked recorded w ≡ (done (ref ∷ []), w)
  unfolding refs_to_stop
  refs_to_stop-named id ref (some a) recorded w h = λ i. (done (some_of ref (h i) ∷ []), w)
  refs_to_stop-named id ref none (some a) w h = λ i. (done (some_of ref (h i) ∷ []), w)
  refs_to_stop-named id ref none none w h = cc

  stop_named :
      (q : DestroyRequest) (r : Allocation) (ref : String) (u : UnitRef) (b v : World c)
      → named_ref q.external_ref r.external_ref ≡ some ref
      → parse_external_ref js ref ≡ some u
      → destroy_observed c js host others q (observed r) b ≡ (done destroy_confirmed, v)
      → IsStopped c js host u v
  unfolding destroy_observed
  stop_named q r ref u b v named parsed e = stop_all-one ref u ((others.once_observed) b) v parsed (
      subst (λ x. resume x.0 (λ refs. stop_all c js host refs) x.1 ≡ (done destroy_confirmed, v))
        (refs_to_stop-named q.allocation_id ref q.external_ref r.external_ref
          ((others.once_observed) b) named)
        e)

  -- From a world with a sound store, take a confirmed destroy request and the record that the
  -- store knows of its allocation afterwards, where other requests may change processes and directories
  -- once the request is observed, but leave the store. If the request names an external reference, or
  -- else the record does, and it parses, then the process that it names is gone and so is the unit's
  -- directory.
  pub destroy-IsStopped :
      (q : DestroyRequest) (r : Allocation) (ref : String) (u : UnitRef) (w v : World c)
      → ((b : World c) → ((others.once_observed) b).store ≡ b.store)
      → IsSound c w.store
      → destroy c js host others q w ≡ (done destroy_confirmed, v)
      → lookup q.allocation_id (known c v.store) ≡ some r
      → named_ref q.external_ref r.external_ref ≡ some ref
      → parse_external_ref js ref ≡ some u
      → IsStopped c js host u v
  destroy-IsStopped q r ref u w v leave h e found named parsed =
      let a : Accounted c js host others (λ s. Unit {0}) q v =
        account c js host others (λ s. Unit {0}) q w v h (λ g valid. tt) e in
      let left : v.store ≡ a.between.store =
        ap (λ x. x.1.store) (sym a.stopping)
        ∙ destroy_observed-store c js host others q a.unit a.between
        ∙ leave a.between in
      let same_unit : r ≡ a.unit =
        some_eq (sym found ∙ ap (λ s. lookup q.allocation_id (known c s)) left ∙ a.settled.found) in
      stop_named q a.unit ref u a.between v
        (subst (λ x. named_ref q.external_ref x.external_ref ≡ some ref) same_unit named) parsed
        a.stopping
