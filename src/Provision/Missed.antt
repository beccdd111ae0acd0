-- ===== src/Provision/Missed.antt =====
-- The units of generation 0, which the scan of the disk passes over.
use workbench.Prelude.{
  ℕ, ◌≡◌, refl, ap, ◌∙◌, String, true, none, some, List, [], ◌∷◌, arith, All, add_all,
}
use workbench.Prelude.Action.{done}
use workbench.Provision.Store.{Codec, Store, Allocation, observed, observe_destroy}
use workbench.Provision.Refs.{Numerals, is_allocation_id, unit_entry, generation_of}
use workbench.Provision.Refs.Parsing.{generation-unit_entry}
use workbench.Provision.Units.{UnitDir, World, Host, allocation_dir_of}
use workbench.Provision.Requests.{
  Others, from_store, destroy, destroy_target, validate_destroy, DestroyRequest, destroy_confirmed,
  destroy_observed, refs_to_stop, stop_all, scan_units, find_units,
}

module _ (c : Codec) (js : Numerals) (host : Host) (others : Others c) where
  abbrev pub IsFirst : UnitDir → Type 0
  IsFirst u = u.entry ≡ unit_entry js 0

  generation-first : (u : UnitDir) → IsFirst u → generation_of js u.entry ≡ none
  generation-first u h = ap (generation_of js) h ∙ generation-unit_entry js 0 (omega arith)

  scan_units-first :
      (id : String) (alive : List ℕ) (us : List UnitDir)
      → All IsFirst us
      → scan_units c js host id alive us ≡ done []
  unfolding scan_units
  scan_units-first id alive [] h = refl
  scan_units-first id alive (u ∷ us) h =
      simp (scan_units-first id alive us h.1, generation-first u h.0) (ground arith)

  -- Where every unit that is on disk once a destroy request is observed is of generation 0, take a valid
  -- request that names no external reference, of an allocation whose id names a directory and whose record
  -- has no reference either, and let the directory be readable. The request is confirmed, and changes
  -- nothing but the record: no process is stopped, whichever are alive, and no directory is removed.
  pub destroy-misses :
      (q : DestroyRequest) (g : ℕ) (r : Allocation) (w : World c) (s : Store c)
      → validate_destroy q ≡ some g
      → observe_destroy c host.observe (destroy_target q g) w.store ≡ (done (observed r), s)
      → is_allocation_id q.allocation_id ≡ true
      → host.listed ≡ true
      → q.external_ref ≡ none
      → r.external_ref ≡ none
      → All IsFirst ((others.once_observed) (record w { store = s })).units
      → destroy c js host others q w
        ≡ (done destroy_confirmed, (others.once_observed) (record w { store = s }))
  unfolding destroy destroy_observed from_store refs_to_stop find_units allocation_dir_of stop_all
      add_all
  destroy-misses q g r w s valid_request answered valid listed asked recorded h =
      let b : World c = (others.once_observed) (record w { store = s }) in
      rw (valid_request, destroy)
        (rw answered (
          simp
            (asked, recorded, valid, listed, scan_units-first q.allocation_id b.alive b.units h)))
