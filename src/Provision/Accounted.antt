-- ===== src/Provision/Accounted.antt =====
-- What is known of a confirmed destroy request before its units are stopped
-- (`destroy` of apps/hub/src/provisioners/process.ts).
use workbench.Prelude.{
  ◌≢◌, ℕ, ◌≡◌, refl, sym, ap, ◌∙◌, String, eq_iff, Option, none, some, List, [], ◌∷◌, arith,
  Option-cases, inl, inr, lookup,
}
use workbench.Prelude.Action.{
  Attempt, done, thrown, resume-done, Keeps, Keeps-pure, Keeps-bind, ◌>>=◌,
}
use workbench.Provision.Store.{
  Codec, Store, Allocation, Observation, observed, refused, observe_destroy, destroyed,
}
use workbench.Provision.Store.Sound.{known, IsSound}
use workbench.Provision.Store.Answers.{Promises, observe_destroy-Promises}
use workbench.Provision.Refs.{Numerals}
use workbench.Provision.Units.{World, Host, Fault, WorldAction, stop_unit}
use workbench.Provision.Frame.{stop_unit-KeepsStore, find_units-KeepsStore}
use workbench.Provision.Acceptance.{lift_fault-done, pair_of}
use workbench.Provision.Requests.{
  Others, DestroyRequest, DestroyResult, destroy_confirmed, destroy_rejected, destroy_target,
  validate_destroy, from_store, lift_fault, or_reject, caught, refs_to_stop, stop_all,
  destroy_observed, destroy,
}

pub validate_destroy-some :
    (q : DestroyRequest) (g : ℕ)
    → validate_destroy q ≡ some g
    → (q.allocation_id ≢ "") × (q.sidecar_id ≢ "") × (q.generation ≡ some g)
unfolding validate_destroy
validate_destroy-some q g h = ground (arith, eq_iff q.allocation_id "", eq_iff q.sidecar_id "")

pub caught-confirmed :
    {c : Codec} (code : String) (r : Attempt Fault (Unit {0}))
    (k : Unit {0} → WorldAction c DestroyResult) (u v : World c)
    → caught c code destroy_rejected r k u ≡ (done destroy_confirmed, v)
    → (r ≡ done tt) × (k tt u ≡ (done destroy_confirmed, v))
caught-confirmed code (done tt) k u v e = (refl, e)
caught-confirmed code (thrown x) k u v e = cc (ap (λ q. q.0) e)

caught-Keeps :
    {c : Codec} (P : Store c → Type 0) (code : String) (r : Attempt Fault (Unit {0}))
    (k : Unit {0} → WorldAction c DestroyResult) (u : World c)
    → P u.store
    → P (k tt u).1.store
    → P (caught c code destroy_rejected r k u).1.store
caught-Keeps P code (done tt) k u h h' = h'
caught-Keeps P code (thrown x) k u h h' = h

module _ (c : Codec) (js : Numerals) (host : Host) (others : Others c) where
  stop_all-Keeps :
      (P : Store c → Type 0) (refs : List String) (w : World c)
      → P w.store
      → P (stop_all c js host refs w).1.store
  unfolding stop_all or_reject
  stop_all-Keeps P [] w h = h
  stop_all-Keeps P (ref ∷ refs) w h =
      let stopped = stop_unit c js host ref w in
      let kept = (stop_unit-KeepsStore c js host P ref).at w h in
      caught-Keeps P "destroy_unit_failed" stopped.0 _ stopped.1 kept
        (stop_all-Keeps P refs stopped.1 kept)

  refs_to_stop-Keeps :
      (P : Store c → Type 0) (id : String) (asked recorded : Option String)
      → Keeps (λ w. P w.store) (refs_to_stop c js host id asked recorded)
  unfolding refs_to_stop
  refs_to_stop-Keeps P id (some ref) recorded = Keeps-pure _
  refs_to_stop-Keeps P id none (some ref) = Keeps-pure _
  refs_to_stop-Keeps P id none none =
      Keeps-bind _ _ (find_units-KeepsStore c js host P id) (λ refs. Keeps-pure _)

  -- The store that a destroy request leaves is the one that the others have made since its observation.
  pub destroy_observed-store :
      (q : DestroyRequest) (r : Allocation) (b : World c)
      → (destroy_observed c js host others q (observed r) b).1.store
        ≡ ((others.once_observed) b).store
  unfolding destroy_observed
  destroy_observed-store q r b =
      (Keeps-bind _ _
          (refs_to_stop-Keeps (λ s. s ≡ ((others.once_observed) b).store) q.allocation_id
            q.external_ref r.external_ref)
          (λ refs. record {
            at = λ w h. stop_all-Keeps (λ s. s ≡ ((others.once_observed) b).store) refs w h;
          })).at
        ((others.once_observed) b) refl

  -- The record of an allocation that a destroy request leaves when it was observed
  pub record IsDestroyed (q : DestroyRequest) (v : World c) (r : Allocation) : Type 0 where
    pub found : lookup q.allocation_id (known c v.store) ≡ some r
    pub same_generation : q.generation ≡ some r.generation
    pub gone : r.desired ≡ destroyed

  -- What is known of a confirmed request before its units are stopped.
  pub record Accounted (P : Store c → Type 0) (q : DestroyRequest) (v : World c) : Type 0 where
    pub unit : Allocation
    pub between : World c
    pub settled : IsDestroyed q between unit
    pub kept : P between.store
    pub stopping :
        destroy_observed c js host others q (observed unit) between ≡ (done destroy_confirmed, v)

  account_observed :
      (P : Store c → Type 0) (q : DestroyRequest) (g : ℕ) (o : Observation) (b v : World c)
      → P b.store
      → q.generation ≡ some g
      → ((r : Allocation) → o ≡ observed r → Promises c (destroy_target q g) destroyed b.store r)
      → destroy_observed c js host others q o b ≡ (done destroy_confirmed, v)
      → Accounted P q v
  unfolding destroy_observed
  account_observed P q g (refused code) b v k gen p e = cc (ap (λ x. x.0) e)
  account_observed P q g (observed r) b v k gen p e =
      let (found, fits) = p r refl in
      record {
        unit = r;
        between = b;
        settled = record {
          found = found;
          same_generation = gen ∙ ap some (sym fits.1);
          gone = fits.2;
        };
        kept = k;
        stopping = e;
      }

  account_valid :
      (P : Store c → Type 0) (q : DestroyRequest) (g : ℕ) (w v : World c)
      → IsSound c w.store
      → P (observe_destroy c host.observe (destroy_target q g) w.store).1
      → validate_destroy q ≡ some g
      → (from_store c (observe_destroy c host.observe (destroy_target q g))
            >>= destroy_observed c js host others q)
          w
        ≡ (done destroy_confirmed, v)
      → Accounted P q v
  unfolding from_store
  account_valid P q g w v h k valid e =
      let asked = observe_destroy c host.observe (destroy_target q g) w.store in
      let (o, said, after) = resume-done (lift_fault asked.0) _ _ e in
      let answered = pair_of asked (lift_fault-done asked.0 o said) in
      account_observed P q g o _ v k (validate_destroy-some q g valid).2
        (λ r is_observed.
          observe_destroy-Promises c host.observe (destroy_target q g) r w.store asked.1 h
            (answered ∙ ap (λ x. (done x, asked.1)) is_observed))
        after

  pub account :
      (P : Store c → Type 0) (q : DestroyRequest) (w v : World c)
      → IsSound c w.store
      → ((g : ℕ)
          → validate_destroy q ≡ some g
          → P (observe_destroy c host.observe (destroy_target q g) w.store).1)
      → destroy c js host others q w ≡ (done destroy_confirmed, v)
      → Accounted P q v
  unfolding destroy
  account P q w v h k e = elim (Option-cases (validate_destroy q)) [
    | inl bad ↦ cc (ap (λ x. x.0) (rw (bad, destroy) at e))
    | inr (g, valid) ↦ account_valid P q g w v h (k g valid) valid (rw (valid, destroy) at e)
  ]
