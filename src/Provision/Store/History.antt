-- ===== src/Provision/Store/History.antt =====
-- Every history of requests, failed writes and restarts keeps the store sound, and only advances
-- the records that it knows.
use workbench.Prelude.{ℕ, ◌≢◌, inl, inr, refl, String, none, false, [], lookup, Bool-cases}
use workbench.Prelude.Action.{Attempt, resume}
use workbench.Provision.Store.{
  Codec, Target, judge_ensure, judge_destroy, recordable, StoreHost, StoreFault, Store, initialize,
  observe_ensure, observe_destroy, record_unit, settle_ensure, settle_destroy, settle_unit,
}
use workbench.Provision.Store.Advance.{
  Advances-refl, Advances-trans, judge_ensure-Advances, judge_destroy-Advances,
}
use workbench.Provision.Store.Changes.{
  IsTarget, Progress, Change-IsSound, Change-Progress, settle_ensure-Change, settle_destroy-Change,
  settle_unit-Change,
}
use workbench.Provision.Store.Sound.{known, IsSound, ready, initialize_lem, ready-IsSound, Change}

module _ (c : Codec) where
  -- One request, a restart of the hub included, and what it does whatever the host answers.
  pub data Step (s : Store c) : Store c → Type 0 where
    ensure :
        (host : StoreHost) (t : Target) → IsTarget host t → Step s (observe_ensure c host t s).1
    destroy :
        (host : StoreHost) (t : Target) → IsTarget host t → Step s (observe_destroy c host t s).1
    unit :
        (host : StoreHost) (id : String) (g : ℕ) (ref : String)
        → host.now ≢ ""
        → Step s (record_unit c host id g ref s).1
    restart : Step s (record s { memory = []; initialized = false })

  abbrev pub Kept : Store c → Store c → Type 0
  Kept s u = IsSound c u × Progress c s u

  Kept-refl : (s : Store c) → IsSound c s → Kept s s
  Kept-refl s h = (h, λ id. Advances-refl _)

  -- A request is `initialize`, and then a change of the store that is ready.
  after_initialize :
      {B : Type 0} (host : StoreHost) (s : Store c) (k : Store c → Attempt StoreFault B × Store c)
      → IsSound c s
      → Change c (ready c s) (k (ready c s)).1
      → Kept s (resume (initialize c host s).0 (λ _. k) (initialize c host s).1).1
  unfolding known
  after_initialize host s k h change = elim (initialize_lem c host s h) [
    | inr (e, stopped) ↦ rw stopped (Kept-refl s h)
    | inl up ↦ rw up (
      Change-IsSound c (ready c s) _ refl (ready-IsSound c s h) change,
      Change-Progress c (ready c s) _ refl change,
    )
  ]

  restart-Kept :
      (s : Store c) → IsSound c s → Kept s (record s { memory = []; initialized = false })
  unfolding known
  restart-Kept s h = (
    record { file = h.file; fresh = λ e. refl; table = tt; ahead = λ e. cc },
    λ id. elim (Bool-cases s.initialized) [
      | inl up ↦ simp up (h.ahead up id)
      | inr down ↦ simp down (Advances-refl _)
    ],
  )

  pub Step-Kept : (s : Store c) {u : Store c} → IsSound c s → Step s u → Kept s u
  unfolding observe_ensure observe_destroy record_unit
  Step-Kept s h (ensure host t ok) =
      after_initialize host s
        (λ r. settle_ensure c host t (judge_ensure (lookup t.allocation_id r.memory) t) r) h
        (settle_ensure-Change c host t (ready c s) _ ok (judge_ensure-Advances _ t host.now))
  Step-Kept s h (destroy host t ok) =
      after_initialize host s
        (λ r.
          settle_destroy c host t (lookup t.allocation_id r.memory)
            (judge_destroy (lookup t.allocation_id r.memory) t) r)
        h
        (settle_destroy-Change c host t (lookup t.allocation_id (known c s)) (ready c s) _ ok
          (judge_destroy-Advances _ t host.now))
  Step-Kept s h (unit host id g ref ok) =
      after_initialize host s (λ r. settle_unit c host id ref (recordable (lookup id r.memory) g) r)
        h (settle_unit-Change c host id ref g (ready c s) ok (ready-IsSound c s h).table)
  Step-Kept s h restart = restart-Kept s h

  pub data Reach (s : Store c) : Store c → Type 0 where
    here : Reach s s
    next : {t u : Store c} → Reach s t → Step t u → Reach s u

  pub Reach-Kept : {s u : Store c} → IsSound c s → Reach s u → Kept s u
  Reach-Kept {s} h here = Kept-refl s h
  Reach-Kept h (next {t} r st) =
      let (ht, pt) = Reach-Kept h r in
      let (hu, pu) = Step-Kept t ht st in (hu, λ id. Advances-trans _ _ _ (pt id) (pu id))

  abbrev pub blank : Store c
  blank = record { memory = []; initialized = false; disk = none }

  pub blank-IsSound : IsSound c blank
  blank-IsSound = record { file = inl refl; fresh = λ e. refl; table = tt; ahead = λ e. cc }

  -- Take a store that starts with no file, and any two moments of any history of requests, failed
  -- reads and writes, and restarts of the hub. Of each allocation that the store knew at the first
  -- moment it knows a record at the second: of the same sidecar, of a generation that is not
  -- smaller, and, where the generation is the same and was destroyed, still destroyed.
  pub history_advances : {s u : Store c} → Reach blank s → Reach s u → Progress c s u
  history_advances r q = (Reach-Kept (Reach-Kept blank-IsSound r).0 q).1
