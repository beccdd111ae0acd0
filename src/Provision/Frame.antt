-- ===== src/Provision/Frame.antt =====
-- All that is done to the units leaves the store as it was.
use workbench.Prelude.{
  ℕ, ◌≡◌, sym, subst, String, Bool, true, false, Option, none, some, List, [], ◌∷◌, arith,
}
use workbench.Prelude.Action.{Keeps, Keeps-bind, Keeps-if, keeps_rules}
use workbench.Provision.Store.{Codec, Store}
use workbench.Provision.Refs.{Numerals, UnitRef, parse_external_ref}
use workbench.Provision.Units.{
  World, Host, WorldAction, allocation_dir_of, start_unit, stop_unit, stop_parsed, remove_dirs,
  terminate, attempt, make_unit, remove_unit, spawn, rethrow_as, save_pid,
}
use workbench.Provision.Requests.{find_units, scan_units, sweep, sweep_obsolete}

-- What an action of the world keeps, if it only depends on the store, is kept by all that the
-- units do.
module _ (c : Codec) (js : Numerals) (host : Host) (P : Store c → Type 0) where
  abbrev pub KeepsStore : {A : Type 0} → WorldAction c A → Type 0
  KeepsStore m = Keeps (λ w. P w.store) m

  of_same_store :
      {A : Type 0} (m : WorldAction c A) → ((w : World c) → (m w).1.store ≡ w.store) → KeepsStore m
  of_same_store m same = record { at = λ w h. subst P (sym (same w)) h }

  terminate-KeepsStore : (pid : ℕ) → KeepsStore (terminate c host pid)
  unfolding terminate
  terminate-KeepsStore pid = of_same_store _ (λ w. ground arith)

  dir-KeepsStore : (id : String) → KeepsStore (allocation_dir_of c id)
  unfolding allocation_dir_of
  dir-KeepsStore id = of_same_store _ (λ w. ground arith)

  made-KeepsStore :
      (b : Bool) (code id entry : String)
      → KeepsStore (attempt c b code (λ w. record w { units = make_unit id entry w.units }))
  unfolding attempt
  made-KeepsStore true code id entry = record { at = λ w h. h }
  made-KeepsStore false code id entry = record { at = λ w h. h }

  removed-KeepsStore :
      (b : Bool) (code id entry : String)
      → KeepsStore (attempt c b code (λ w. record w { units = remove_unit id entry w.units }))
  unfolding attempt
  removed-KeepsStore true code id entry = record { at = λ w h. h }
  removed-KeepsStore false code id entry = record { at = λ w h. h }

  parent-KeepsStore : (b : Bool) (code : String) → KeepsStore (attempt c b code (λ w. w))
  unfolding attempt
  parent-KeepsStore true code = record { at = λ w h. h }
  parent-KeepsStore false code = record { at = λ w h. h }

  spawn-KeepsStore : KeepsStore (spawn c js host)
  unfolding spawn
  spawn-KeepsStore = of_same_store _ (λ w. ground arith)

  rethrow-KeepsStore :
      (code : String) (pid : ℕ) → KeepsStore (λ w. rethrow_as c code (terminate c host pid w))
  unfolding terminate
  rethrow-KeepsStore code pid = of_same_store _ (λ w. ground arith)

  ruleset unit_rules = (
    keeps_rules, terminate-KeepsStore, dir-KeepsStore, made-KeepsStore, removed-KeepsStore,
    parent-KeepsStore, spawn-KeepsStore, rethrow-KeepsStore,
  )

  save_pid-KeepsStore : (id entry : String) (pid : ℕ) → KeepsStore (save_pid c js host id entry pid)
  unfolding save_pid
  save_pid-KeepsStore id entry pid =
      Keeps-if host.pid_written _ _ (record { at = λ w h. h }) (search unit_rules)

  pub start_unit-KeepsStore : (id : String) (g : ℕ) → KeepsStore (start_unit c js host id g)
  unfolding start_unit
  start_unit-KeepsStore id g = search (unit_rules, save_pid-KeepsStore) depth 9

  remove_dirs-KeepsStore : (u : UnitRef) → KeepsStore (remove_dirs c js host u)
  unfolding remove_dirs
  remove_dirs-KeepsStore u = search unit_rules depth 9

  stop_parsed-KeepsStore : (u : Option UnitRef) → KeepsStore (stop_parsed c js host u)
  unfolding stop_parsed
  stop_parsed-KeepsStore none = search unit_rules
  stop_parsed-KeepsStore (some u) = search (unit_rules, remove_dirs-KeepsStore)

  pub stop_unit-KeepsStore : (ref : String) → KeepsStore (stop_unit c js host ref)
  unfolding stop_unit
  stop_unit-KeepsStore ref = stop_parsed-KeepsStore (parse_external_ref js ref)

  sweep-KeepsStore :
      (refs : List String) (w : World c) → P w.store → P (sweep c js host refs w).store
  unfolding sweep
  sweep-KeepsStore [] w h = h
  sweep-KeepsStore (ref ∷ refs) w h =
      sweep-KeepsStore refs (stop_unit c js host ref w).1 ((stop_unit-KeepsStore ref).at w h)

  scan-KeepsStore : (id : String) → KeepsStore (λ w. (scan_units c js host id w.alive w.units, w))
  scan-KeepsStore id = record { at = λ w h. h }

  pub find_units-KeepsStore : (id : String) → KeepsStore (find_units c js host id)
  unfolding find_units
  find_units-KeepsStore id = search (unit_rules, scan-KeepsStore)

  pub sweep_obsolete-KeepsStore : (id ref : String) → KeepsStore (sweep_obsolete c js host id ref)
  unfolding sweep_obsolete
  sweep_obsolete-KeepsStore id ref =
      Keeps-bind _ _ (find_units-KeepsStore id)
        (λ refs. record { at = λ w h. sweep-KeepsStore _ w h })
