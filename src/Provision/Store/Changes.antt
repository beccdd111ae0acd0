-- ===== src/Provision/Store/Changes.antt =====
-- What one operation does to a store that is ready.
use workbench.Prelude.{
  ℕ, ◌≡◌, ◌≢◌, inl, inr, refl, sym, subst, String, Option, none, some, true, arith, lookup, insert,
  Option-cases,
}
use workbench.Prelude.Action.{resume_keeps}
use workbench.Provision.Store.{
  Allocation, Codec, Write, written, write_failed, Target, Observation, recordable, ensured_record,
  destroyed_record, sync_failed, StoreHost, Store, commit, settle_ensure, settle_destroy,
  settle_unit,
}
use workbench.Provision.Store.Advance.{Advances, Advances-refl, recordable-eq}
use workbench.Provision.Store.Table.{IsStorable, IsTable, IsTable-insert, lookup-IsTable}
use workbench.Provision.Store.Sound.{
  known, IsSound, recovered-encode, Change, same, stored, surfaced, insert-Advances,
}

-- A request that the provisioner passes on, at a time that `toISOString` gives.
abbrev pub IsTarget : StoreHost → Target → Type 0
IsTarget host t = (t.allocation_id ≢ "") × (t.sidecar_id ≢ "") × (host.now ≢ "")

module _ (c : Codec) where
  pub Change-IsSound :
      (s u : Store c) → s.initialized ≡ true → IsSound c s → Change c s u → IsSound c u
  Change-IsSound s u up h (same e) = subst (IsSound c) (sym e) h
  Change-IsSound s u up h (stored r ok a e) =
      let t = IsTable-insert r.allocation_id r s.memory refl ok h.table in
      subst (IsSound c) (sym e) (record {
        file = inr (insert r.allocation_id r s.memory, t, refl);
        fresh = λ down. cc;
        table = t;
        ahead = λ _ id. rw (recovered-encode c _ t) (Advances-refl _);
      })
  Change-IsSound s u up h (surfaced r ok a e) =
      let t = IsTable-insert r.allocation_id r s.memory refl ok h.table in
      subst (IsSound c) (sym e) (record {
        file = inr (insert r.allocation_id r s.memory, t, refl);
        fresh = h.fresh;
        table = h.table;
        ahead = λ _ id. rw (recovered-encode c _ t) (insert-Advances c s.memory r a id);
      })

  -- How two stores compare, record by record.
  abbrev pub Progress : Store c → Store c → Type 0
  Progress s u = (id : String) → Advances (lookup id (known c s)) (lookup id (known c u))

  pub Change-Progress : (s u : Store c) → s.initialized ≡ true → Change c s u → Progress s u
  unfolding known
  Change-Progress s u up (same e) id = rw e (Advances-refl _)
  Change-Progress s u up (stored r ok a e) id = rw e (simp up (insert-Advances c s.memory r a id))
  Change-Progress s u up (surfaced r ok a e) id = rw e (simp up (Advances-refl _))

  pub commit-Change :
      (write : Write) (r : Allocation) (s : Store c)
      → IsStorable r
      → Advances (lookup r.allocation_id s.memory) (some r)
      → Change c s (commit c write r.allocation_id r s).1
  unfolding commit
  commit-Change written r s ok a = stored r ok a refl
  commit-Change write_failed r s ok a = same refl
  commit-Change sync_failed r s ok a = surfaced r ok a refl

  pub settle_ensure-Change :
      (host : StoreHost) (t : Target) (s : Store c) (o : Option Observation)
      → IsTarget host t
      → (o ≡ none → Advances (lookup t.allocation_id s.memory) (some (ensured_record t host.now)))
      → Change c s (settle_ensure c host t o s).1
  unfolding settle_ensure
  settle_ensure-Change host t s (some o) ok a = same refl
  settle_ensure-Change host t s none ok a =
      resume_keeps (Change c s) _ _ _
        (commit-Change host.write (ensured_record t host.now) s ok (a refl))

  pub settle_destroy-Change :
      (host : StoreHost) (t : Target) (e : Option Allocation) (s : Store c) (o : Option Observation)
      → IsTarget host t
      → (o ≡ none
          → Advances (lookup t.allocation_id s.memory) (some (destroyed_record e t host.now)))
      → Change c s (settle_destroy c host t e o s).1
  unfolding settle_destroy
  settle_destroy-Change host t e s (some o) ok a = same refl
  settle_destroy-Change host t e s none ok a =
      resume_keeps (Change c s) _ _ _
        (commit-Change host.write (destroyed_record e t host.now) s ok (a refl))

  settle_found-Change :
      (host : StoreHost) (ref : String) (r : Allocation) (s : Store c)
      → host.now ≢ ""
      → IsStorable r
      → lookup r.allocation_id s.memory ≡ some r
      → Change c s (settle_unit c host r.allocation_id ref (some r) s).1
  unfolding settle_unit
  settle_found-Change host ref r s ok fits found =
      let r' : Allocation = record r { external_ref = some ref; updated_at = host.now } in
      resume_keeps (Change c s) _ _ _
        (commit-Change host.write r' s (fits.0, fits.1, ok) (rw found (ground arith)))

  pub settle_unit-Change :
      (host : StoreHost) (id ref : String) (g : ℕ) (s : Store c)
      → host.now ≢ ""
      → IsTable s.memory
      → Change c s (settle_unit c host id ref (recordable (lookup id s.memory) g) s).1
  settle_unit-Change host id ref g s ok t =
      elim (Option-cases (recordable (lookup id s.memory) g)) [
        | inl e ↦ rw e (unfold settle_unit in same refl)
        | inr (r, e) ↦
            let found = (recordable-eq (lookup id s.memory) g r e).0 in
            let (key, fits) = lookup-IsTable id r s.memory t found in
            rw e (
              subst (λ k. Change c s (settle_unit c host k ref (some r) s).1) (sym key)
                (settle_found-Change host ref r s ok fits
                  (subst (λ k. lookup k s.memory ≡ some r) key found)))
      ]
