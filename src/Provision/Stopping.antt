-- ===== src/Provision/Stopping.antt =====
-- What stopping a unit leaves of its process and its directory.
use workbench.Prelude.{
  ℕ, zero, suc, ◌+◌, ◌≤◌, ◌≡◌, ◌≢◌, refl, ap, ◌∙◌, subst, String, Bool, false, not, some, List, [],
  ◌∷◌, arith, keep, Bool-cases, ◌⊎◌, inl, inr, any,
}
use workbench.Prelude.Action.{Attempt, done, thrown, resume-done}
use workbench.Provision.Store.{Codec}
use workbench.Provision.Refs.{Numerals, UnitRef, unit_entry, parse_external_ref}
use workbench.Provision.Units.{
  UnitDir, World, Host, Reaction, Fault, is_alive, bury, await_exit, lives_at, is_unit, remove_unit,
  allocation_dir_of, attempt, stop_unit, stop_parsed, remove_dirs, remove_unit, terminate,
  rethrow_as,
}

-- From poll `n` on, with `rounds` polls left to the deadline, the poll loop of `terminate` ends
-- after at most that many: either at the deadline, or at a poll where the process is gone.
pub await_exit-le :
    (rounds : ℕ) (r : Reaction) (n : ℕ)
    → (await_exit rounds r n ≤ rounds + n)
      × ((await_exit rounds r n ≡ rounds + n) ⊎ (lives_at r (await_exit rounds r n) ≡ false))
unfolding await_exit
await_exit-le zero r n = (omega arith, inl (omega arith))
await_exit-le (suc rounds) r n = elim (Bool-cases (lives_at r n)) [
  | inl there ↦
      let (most, ended) = await_exit-le rounds r (n + 1) in
      rw there
        (omega arith, elim ended [ inl all_rounds ↦ inl (omega arith) | inr gone ↦ inr gone ])
  | inr gone ↦ rw gone (omega arith, inr gone)
]

is_alive-bury : (pid : ℕ) (ps : List ℕ) → is_alive (bury pid ps) pid ≡ false
unfolding is_alive bury
is_alive-bury pid [] = refl
is_alive-bury pid (p ∷ ps) = ground (arith, is_alive-bury pid ps)

is_alive-bury_other : (pid q : ℕ) (ps : List ℕ) → pid ≢ q → is_alive (bury pid ps) q ≡ is_alive ps q
unfolding is_alive bury
is_alive-bury_other pid q [] ne = refl
is_alive-bury_other pid q (p ∷ ps) ne = ground (arith, is_alive-bury_other pid q ps ne)

any-keep-not : (f : UnitDir → Bool) (us : List UnitDir) → any f (keep (λ u. not (f u)) us) ≡ false
any-keep-not f [] = refl
any-keep-not f (u ∷ us) = ground (arith, any-keep-not f us)

module _ (c : Codec) (host : Host) where
  -- A termination that does not throw leaves no such process, and no other process changed.
  terminate-done :
      (pid : ℕ) (w : World c)
      → (terminate c host pid w).0 ≡ done tt
      → (is_alive (terminate c host pid w).1.alive pid ≡ false)
        × ((q : ℕ) → pid ≢ q → is_alive (terminate c host pid w).1.alive q ≡ is_alive w.alive q)
  unfolding terminate
  terminate-done pid w h = (
    ground (arith, is_alive-bury pid w.alive),
    λ q ne. ground (arith, is_alive-bury_other pid q w.alive ne),
  )

module _ (c : Codec) (js : Numerals) (host : Host) where
  abbrev has_dir : UnitRef → World c → Bool
  has_dir u w = any (is_unit u.allocation_id (unit_entry js u.generation)) w.units

  remove_dirs-done :
      (u : UnitRef) (w : World c)
      → (remove_dirs c js host u w).0 ≡ done tt
      → ((remove_dirs c js host u w).1.alive ≡ w.alive)
        × (has_dir u (remove_dirs c js host u w).1 ≡ false)
  unfolding remove_dirs allocation_dir_of attempt remove_unit
  remove_dirs-done u w h =
      ground (arith, any-keep-not (is_unit u.allocation_id (unit_entry js u.generation)) w.units)

  -- The process of a unit is gone, and so is its directory.
  abbrev pub IsStopped : UnitRef → World c → Type 0
  IsStopped u w = (is_alive w.alive u.pid ≡ false) × (has_dir u w ≡ false)

  rethrow-done :
      (code : String) (r : Attempt Fault (Unit {0}) × World c)
      → (rethrow_as c code r).0 ≡ done tt
      → (r.0 ≡ done tt) × ((rethrow_as c code r).1 ≡ r.1)
  rethrow-done code (done tt, w) h = (refl, refl)
  rethrow-done code (thrown e, w) h = cc

  stop_parsed-done :
      (u : UnitRef) (w v : World c)
      → stop_parsed c js host (some u) w ≡ (done tt, v)
      → IsStopped u v
  unfolding stop_parsed
  stop_parsed-done u w v h =
      let t = rethrow_as c "sidecar_terminate_failed" (terminate c host u.pid w) in
      let (x, ended, after) = resume-done t.0 _ t.1 h in
      let (quiet, same) =
        rethrow-done "sidecar_terminate_failed" (terminate c host u.pid w) ended in
      let (dead, _) = terminate-done c host u.pid w quiet in
      let (alive_same, no_dir) = remove_dirs-done u t.1 (ap (λ p. p.0) after) in
      subst (IsStopped u) (ap (λ p. p.1) after) (
        ap (λ a. is_alive a u.pid) alive_same ∙ ap (λ z. is_alive z.alive u.pid) same ∙ dead,
        no_dir,
      )

  -- Where an external reference parses and its unit is stopped without an error, the process that
  -- it names is gone and so is the unit's directory.
  pub stop_unit-IsStopped :
      (ref : String) (u : UnitRef) (w v : World c)
      → parse_external_ref js ref ≡ some u
      → stop_unit c js host ref w ≡ (done tt, v)
      → IsStopped u v
  unfolding stop_unit
  stop_unit-IsStopped ref u w v p h = stop_parsed-done u w v (rw (p, stop_unit) at h)
