-- ===== src/Provision/Acceptance.antt =====
-- What an accepted ensure request has in the store, whatever other requests do meanwhile
-- (`ensureOnce` of apps/hub/src/provisioners/process.ts).
use workbench.Prelude.{ℕ, ◌≡◌, String, lookup}
use workbench.Prelude.Action.{Attempt, done, thrown}
use workbench.Provision.Store.{Codec, Store, StoreFault}
use workbench.Provision.Store.Sound.{known}
use workbench.Provision.Store.History.{Reach}
use workbench.Provision.Store.Answers.{HasUnit}
use workbench.Provision.Refs.{Numerals}
use workbench.Provision.Units.{World, Host}
use workbench.Provision.Requests.{Others, lift_fault}

pub lift_fault-done :
    {A : Type 0} (r : Attempt StoreFault A) (a : A) → lift_fault r ≡ done a → r ≡ done a
lift_fault-done (done b) a h = cc
lift_fault-done (thrown e) a h = cc

pub pair_of : {A B : Type 0} {a : A} (p : A × B) → p.0 ≡ a → p ≡ (a, p.1)
pair_of p e = λ i. (e i, p.1)

module _ (c : Codec) where
  -- To the store, the other requests do what requests do, in any number and order.
  pub record AreRequests (others : Others c) : Type 0 where
    pub observed_then : (w : World c) → Reach c w.store ((others.once_observed) w).store
    pub started_then : (w : World c) → Reach c w.store ((others.once_started) w).store
    pub recorded_then : (w : World c) → Reach c w.store ((others.once_recorded) w).store
    pub swept_then : (w : World c) → Reach c w.store ((others.once_swept) w).store

module _ (c : Codec) (js : Numerals) (host : Host) (others : Others c)
    (are_requests : AreRequests c others) where
  -- The record that the store knows for an allocation has the unit.
  abbrev pub Holds : String → ℕ → String → Store c → Type 0
  Holds id g ref s = HasUnit g ref (lookup id (known c s))

  -- At a moment the store knew such a record, and from then on only other requests changed it.
  abbrev pub Held : String → ℕ → String → Store c → Type 0
  Held id g ref v = (s : Store c) × Holds id g ref s × Reach c s v
