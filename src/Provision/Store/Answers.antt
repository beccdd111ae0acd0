-- ===== src/Provision/Store/Answers.antt =====
-- What an answer of the store promises.
use workbench.Prelude.{
  ℕ, ◌≡◌, ◌<◌, inl, inr, refl, ap, ◌∙◌, subst, String, eq_iff, eq_refl, Option, none, some, true,
  arith, lookup, lookup-insert,
}
use workbench.Prelude.Action.{Attempt, pure, done, resume, resume-done}
use workbench.Provision.Store.{
  Allocation, Codec, Write, written, write_failed, sync_failed, Target, Observation, observed,
  Desired, ensured, destroyed, judge_ensure, judge_destroy, recordable, ensured_record,
  destroyed_record, StoreHost, StoreFault, Store, initialize, commit, observe_ensure,
  observe_destroy, record_unit, settle_ensure, settle_destroy, settle_unit,
}
use workbench.Provision.Store.Advance.{Advances, Advances-trans, recordable-eq}
use workbench.Provision.Store.Sound.{known, IsSound, ready, initialize_lem}
use workbench.Provision.Store.Changes.{IsTarget}
use workbench.Provision.Store.History.{ensure, destroy, Reach, Reach-Kept, Step-Kept}

-- `r` is the record of the target in the desired state `d`.
abbrev pub Fits : Target → Desired → Allocation → Type 0
Fits t d r = (r.sidecar_id ≡ t.sidecar_id) × (r.generation ≡ t.generation) × (r.desired ≡ d)

judge_ensure-observed :
    (o : Option Allocation) (t : Target) (r : Allocation)
    → judge_ensure o t ≡ some (observed r)
    → (o ≡ some r) × Fits t ensured r
unfolding judge_ensure
judge_ensure-observed none t r h = cc
judge_ensure-observed (some a) t r h = ground (arith, eq_iff a.sidecar_id t.sidecar_id)

judge_destroy-observed :
    (o : Option Allocation) (t : Target) (r : Allocation)
    → judge_destroy o t ≡ some (observed r)
    → (o ≡ some r) × Fits t destroyed r
unfolding judge_destroy
judge_destroy-observed none t r h = cc
judge_destroy-observed (some a) t r h = ground (arith, eq_iff a.sidecar_id t.sidecar_id)

newer_generation :
    (a b : Option Allocation) (t t' : Target) (r r' : Allocation)
    → Advances a b
    → a ≡ some r
    → b ≡ some r'
    → Fits t destroyed r
    → Fits t' ensured r'
    → t.generation < t'.generation
newer_generation a b t t' r r' adv p q was now =
    let advanced = subst (λ x. Advances x (some r')) p (subst (λ y. Advances a y) q adv) in
    ground arith

-- The unit `ref` is recorded for an allocation, at generation `g` and not destroyed.
pub record HasUnit (g : ℕ) (ref : String) (o : Option Allocation) : Type 0 where
  pub unit : Allocation
  pub found : o ≡ some unit
  pub same_generation : unit.generation ≡ g
  pub live : unit.desired ≡ ensured
  pub same_ref : unit.external_ref ≡ some ref

module _ (c : Codec) where
  -- A write that is acknowledged is in the map of a store that is ready.
  commit-saves :
      (write : Write) (id : String) (r : Allocation) (s : Store c) (x : Unit {0})
      → s.initialized ≡ true
      → (commit c write id r s).0 ≡ done x
      → lookup id (known c (commit c write id r s).1) ≡ some r
  unfolding commit known
  commit-saves written id r s x up h = simp up (rw (lookup-insert id id r s.memory, eq_refl id))
  commit-saves write_failed id r s x up h = cc
  commit-saves sync_failed id r s x up h = cc

  -- What an answer promises of the store that it leaves.
  abbrev pub Promises : Target → Desired → Store c → Allocation → Type 0
  Promises t d u r = (lookup t.allocation_id (known c u) ≡ some r) × Fits t d r

  commit-observed :
      (write : Write) (t : Target) (d : Desired) (fresh r : Allocation) (s u : Store c)
      → s.initialized ≡ true
      → Fits t d fresh
      → resume
          (commit c write t.allocation_id fresh s).0
          (λ _. pure (observed fresh))
          (commit c write t.allocation_id fresh s).1
        ≡ (done (observed r), u)
      → Promises t d u r
  commit-observed write t d fresh r s u up fits h =
      let (x, wrote, e) = resume-done (commit c write t.allocation_id fresh s).0 _ _ h in
      let same_r : fresh ≡ r = cc (ap (λ p. p.0) e) in
      subst (λ v. Promises t d v r) (ap (λ p. p.1) e)
        (subst
          (λ v.
            (lookup t.allocation_id (known c (commit c write t.allocation_id fresh s).1) ≡ some v)
            × Fits t d v)
          same_r (commit-saves write t.allocation_id fresh s x up wrote, fits))

  settle_ensure-observed :
      (host : StoreHost) (t : Target) (r : Allocation) (s u : Store c) (o : Option Observation)
      → judge_ensure (lookup t.allocation_id s.memory) t ≡ o
      → s.initialized ≡ true
      → settle_ensure c host t o s ≡ (done (observed r), u)
      → Promises t ensured u r
  unfolding settle_ensure
  settle_ensure-observed host t r s u (some o) e up h =
      let same_o : o ≡ observed r = cc (ap (λ p. p.0) h) in
      subst (λ v. Promises t ensured v r) (ap (λ p. p.1) h)
        (unfold known in simp up (judge_ensure-observed _ t r (e ∙ ap some same_o)))
  settle_ensure-observed host t r s u none e up h =
      commit-observed host.write t ensured (ensured_record t host.now) r s u up (refl, refl, refl) h

  settle_destroy-observed :
      (host : StoreHost) (t : Target) (r : Allocation) (s u : Store c) (old : Option Allocation)
      (o : Option Observation)
      → lookup t.allocation_id s.memory ≡ old
      → judge_destroy old t ≡ o
      → s.initialized ≡ true
      → settle_destroy c host t old o s ≡ (done (observed r), u)
      → Promises t destroyed u r
  unfolding settle_destroy
  settle_destroy-observed host t r s u old (some o) k e up h =
      let same_o : o ≡ observed r = cc (ap (λ p. p.0) h) in
      subst (λ v. Promises t destroyed v r) (ap (λ p. p.1) h)
        (unfold known in simp (up, k) (judge_destroy-observed old t r (e ∙ ap some same_o)))
  settle_destroy-observed host t r s u old none k e up h =
      commit-observed host.write t destroyed (destroyed_record old t host.now) r s u up
        (refl, refl, refl) h

  -- A request that returned ran on the store that is ready.
  ran_ready :
      {B : Type 0} (host : StoreHost) (s u : Store c) (b : B)
      (k : Store c → Attempt StoreFault B × Store c)
      → IsSound c s
      → resume (initialize c host s).0 (λ _. k) (initialize c host s).1 ≡ (done b, u)
      → k (ready c s) ≡ (done b, u)
  ran_ready host s u b k h e = elim (initialize_lem c host s h) [
    | inr (x, stopped) ↦ cc (rw stopped at e)
    | inl up ↦ rw up at e
  ]

  -- If a sound store answers an ensure request with a record, then it knows that record under the
  -- allocation's id, and the record has the request's sidecar and generation and is ensured.
  pub observe_ensure-Promises :
      (host : StoreHost) (t : Target) (r : Allocation) (s u : Store c)
      → IsSound c s
      → observe_ensure c host t s ≡ (done (observed r), u)
      → Promises t ensured u r
  unfolding observe_ensure
  observe_ensure-Promises host t r s u h e =
      settle_ensure-observed host t r (ready c s) u _ refl refl
        (ran_ready host s u (observed r) _ h e)

  -- If a sound store answers a destroy request with a record, then it knows that record under the
  -- allocation's id, and the record has the request's sidecar and generation and is destroyed.
  pub observe_destroy-Promises :
      (host : StoreHost) (t : Target) (r : Allocation) (s u : Store c)
      → IsSound c s
      → observe_destroy c host t s ≡ (done (observed r), u)
      → Promises t destroyed u r
  unfolding observe_destroy
  observe_destroy-Promises host t r s u h e =
      settle_destroy-observed host t r (ready c s) u _ _ refl refl refl
        (ran_ready host s u (observed r) _ h e)

  -- After a destroy request was answered, whatever happened since (other requests, failed writes,
  -- restarts), an ensure request of the same allocation that is answered with a record has a
  -- larger generation.
  pub destroyed_stays_destroyed :
      (host host' : StoreHost) (t t' : Target) (r r' : Allocation) {s s1 s2 s3 : Store c}
      → IsSound c s
      → IsTarget host t
      → IsTarget host' t'
      → observe_destroy c host t s ≡ (done (observed r), s1)
      → Reach c s1 s2
      → t'.allocation_id ≡ t.allocation_id
      → observe_ensure c host' t' s2 ≡ (done (observed r'), s3)
      → t.generation < t'.generation
  destroyed_stays_destroyed host host' t t' r r' {s} {s1} {s2} {s3} h ok ok' d later same_id e =
      let sound1 = subst (IsSound c) (ap (λ p. p.1) d) (Step-Kept c s h (destroy host t ok)).0 in
      let (sound2, p12) = Reach-Kept c sound1 later in
      let p23 = (Step-Kept c s2 sound2 (ensure host' t' ok')).1 t.allocation_id in
      let p13 = Advances-trans _ _ _ (p12 t.allocation_id) p23 in
      let to_s3 =
        subst
          (λ v. Advances (lookup t.allocation_id (known c s1)) (lookup t.allocation_id (known c v)))
          (ap (λ p. p.1) e) p13 in
      let was = observe_destroy-Promises host t r s s1 h d in
      let now = observe_ensure-Promises host' t' r' s2 s3 sound2 e in
      newer_generation _ _ t t' r r' to_s3 was.0
        (subst (λ k. lookup k (known c s3) ≡ some r') same_id now.0) was.1 now.1

  settle_unit-true :
      (host : StoreHost) (id ref : String) (g : ℕ) (s u : Store c) (o : Option Allocation)
      → recordable (lookup id s.memory) g ≡ o
      → s.initialized ≡ true
      → settle_unit c host id ref o s ≡ (done true, u)
      → HasUnit g ref (lookup id (known c u))
  unfolding settle_unit
  settle_unit-true host id ref g s u none e up h = cc (ap (λ p. p.0) h)
  settle_unit-true host id ref g s u (some r) e up h =
      let r' : Allocation = record r { external_ref = some ref; updated_at = host.now } in
      let (x, wrote, after) = resume-done (commit c host.write id r' s).0 _ _ h in
      let facts = recordable-eq (lookup id s.memory) g r e in
      record {
        unit = r';
        found =
            subst (λ v. lookup id (known c v) ≡ some r') (ap (λ p. p.1) after)
              (commit-saves host.write id r' s x up wrote);
        same_generation = facts.1;
        live = facts.2;
        same_ref = refl;
      }

  -- If a sound store reports that a started unit was recorded, then the record that it knows has
  -- the unit, is of the generation that was started, and is not destroyed.
  pub record_unit-true :
      (host : StoreHost) (id ref : String) (g : ℕ) (s u : Store c)
      → IsSound c s
      → record_unit c host id g ref s ≡ (done true, u)
      → HasUnit g ref (lookup id (known c u))
  unfolding record_unit
  record_unit-true host id ref g s u h e =
      settle_unit-true host id ref g (ready c s) u _ refl refl (ran_ready host s u true _ h e)
