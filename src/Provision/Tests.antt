-- ===== src/Provision/Tests.antt =====
-- Runs of the provisioner.
use workbench.Prelude.{
  ℕ, ◌≡◌, ◌≢◌, ◌<◌, refl, sym, subst, inr, String, true, false, Option, none, some, [], ◌∷◌, arith,
  lookup, insert,
}
use workbench.Prelude.Action.{done}
use workbench.Provision.Store.{
  written, Allocation, Desired, ensured, destroyed, Store, initialize, read_state, judge_ensure,
  judge_destroy, settle_ensure, settle_destroy, settle_unit, recordable, commit, persist,
  observe_ensure, observe_destroy, record_unit,
}
use workbench.Provision.Refs.{
  parse_external_ref, ref_of_parts, ref_of_numbers, split_colon, external_ref_of, is_allocation_id,
  is_id_char, all_id_chars, unit_entry,
}
use workbench.Provision.Requests.{
  Others, ensure_rejected, ensure_once, destroy, destroy_confirmed, validate_ensure,
  validate_destroy, from_store, or_reject, conclude_start, start_observed, after_observation,
  refs_to_stop, stop_all, destroy_observed,
}
use workbench.Provision.Store.Advance.{Advances, Advances-refl}
use workbench.Provision.Store.Table.{IsTable}
use workbench.Provision.Store.Sound.{known, IsSound, recovered-encode}
use workbench.Provision.Store.Restart.{IsKept, commit-IsKept}
use workbench.Provision.Store.Changes.{Progress}
use workbench.Provision.Store.History.{history_advances, ensure, here, next}
use workbench.Provision.Store.Answers.{destroyed_stays_destroyed}
use workbench.Provision.Refs.Parsing.{parse-external_ref}
use workbench.Provision.Stopping.{IsStopped}
use workbench.Provision.Accounted.{IsDestroyed}
use workbench.Provision.Destruction.{IsOver, destroy-IsDestroyed, destroy-IsStopped}
use workbench.Provision.Missed.{destroy-misses}
use workbench.Provision.Samples.{
  alone, calm, target_a, empty_store, sample_codec, sample_numerals, sample_host, empty_world,
  start_a, stop_a,
}
use workbench.Provision.Units.{
  World, is_alive, bury, await_exit, make_unit, write_pid, remove_unit, kill, finish_off, send_term,
  terminate, allocation_dir_of, attempt, spawn, save_pid, start_unit, remove_dirs, stop_parsed,
  stop_unit,
}

abbrev unit_a : Desired → Option String → ℕ → Allocation
unit_a d ref g = record {
  allocation_id = "a";
  sidecar_id = "s";
  generation = g;
  desired = d;
  external_ref = ref;
  updated_at = "noon";
}

abbrev holding : Allocation → Store sample_codec
holding r = record { memory = ("a", r) ∷ []; initialized = true; disk = some (r ∷ []) }

abbrev started : World sample_codec
started = record {
  store = holding (unit_a ensured (some "a:1:111") 1);
  units = record { allocation_id = "a"; entry = "gen-1"; pid_file = some "111\n" } ∷ [];
  alive = 3 ∷ 9 ∷ [];
}

abbrev ended : World sample_codec
ended = record { store = holding (unit_a destroyed (some "a:1:111") 1); units = []; alive = 9 ∷ [] }

abbrev orphaned : World sample_codec
orphaned = record {
  store = empty_store;
  units = record { allocation_id = "a"; entry = "gen-"; pid_file = some "111\n" } ∷ [];
  alive = 3 ∷ [];
}

destroy_runs :
    destroy sample_codec sample_numerals sample_host alone stop_a started
    ≡ (done destroy_confirmed, ended)
unfolding destroy validate_destroy from_store observe_destroy initialize lookup insert judge_destroy
    settle_destroy commit persist destroy_observed refs_to_stop stop_all or_reject stop_unit
    stop_parsed parse_external_ref ref_of_parts ref_of_numbers split_colon terminate send_term
    await_exit finish_off kill bury is_alive remove_dirs allocation_dir_of is_allocation_id
    is_id_char all_id_chars attempt remove_unit unit_entry
destroy_runs = refl

a_named : ◌≢◌ {A = String} "a" ""
a_named e = cc

s_named : ◌≢◌ {A = String} "s" ""
s_named e = cc

noon_named : ◌≢◌ {A = String} "noon" ""
noon_named e = cc

holding-IsSound :
    (d : Desired) (ref : Option String) (g : ℕ) → IsSound sample_codec (holding (unit_a d ref g))
holding-IsSound d ref g =
    let t : IsTable (("a", unit_a d ref g) ∷ []) =
      (refl, (a_named, s_named, noon_named), unfold lookup in refl, tt) in
    record {
      file = inr (("a", unit_a d ref g) ∷ [], t, refl);
      fresh = λ e. cc;
      table = t;
      ahead = λ _ id.
          subst (λ m. Advances (lookup id (("a", unit_a d ref g) ∷ [])) (lookup id m))
            (sym (recovered-encode sample_codec _ t)) (Advances-refl _);
    }

-- While the unit starts, a destroy request comes in.
abbrev destroyed_meanwhile : Others sample_codec
destroyed_meanwhile = record alone {
  once_started = λ (w : World sample_codec). record w {
    store = (observe_destroy sample_codec calm target_a w.store).1;
  };
}

superseded :
    ensure_once sample_codec sample_numerals sample_host destroyed_meanwhile start_a empty_world ≡ (
      done (ensure_rejected "stale_generation" false),
      record { store = holding (unit_a destroyed none 1); units = []; alive = 9 ∷ [] },
    )
unfolding ensure_once validate_ensure from_store observe_ensure observe_destroy initialize
    read_state lookup insert judge_ensure judge_destroy settle_ensure settle_destroy commit persist
    after_observation start_observed or_reject start_unit allocation_dir_of is_allocation_id
    is_id_char all_id_chars attempt make_unit spawn save_pid write_pid unit_entry external_ref_of
    record_unit recordable settle_unit conclude_start is_alive stop_unit stop_parsed
    parse_external_ref ref_of_parts ref_of_numbers split_colon terminate send_term await_exit
    finish_off kill bury remove_dirs remove_unit
superseded = refl

destroy-IsDestroyed_example :
    (r : Allocation) × (b : World sample_codec) × IsDestroyed sample_codec sample_numerals
      sample_host alone stop_a b r
    × (ended.store ≡ b.store)
    × IsOver sample_codec sample_numerals sample_host alone stop_a r ended.store
destroy-IsDestroyed_example =
    destroy-IsDestroyed sample_codec sample_numerals sample_host alone stop_a started ended
      (λ b. here) noon_named (holding-IsSound ensured (some "a:1:111") 1) destroy_runs

destroy-IsStopped_example :
    IsStopped sample_codec sample_numerals sample_host
      (record { allocation_id = "a"; generation = 1; pid = 3 })
      ended
unfolding known lookup parse_external_ref split_colon ref_of_parts ref_of_numbers
destroy-IsStopped_example =
    destroy-IsStopped sample_codec sample_numerals sample_host alone stop_a
      (unit_a destroyed (some "a:1:111") 1) "a:1:111"
      (record { allocation_id = "a"; generation = 1; pid = 3 }) started ended (λ b. refl)
      (holding-IsSound ensured (some "a:1:111") 1) destroy_runs refl refl refl

destroy-misses_example :
    destroy sample_codec sample_numerals sample_host alone stop_a orphaned
    ≡ (done destroy_confirmed, record orphaned { store = holding (unit_a destroyed none 1) })
unfolding is_allocation_id is_id_char all_id_chars unit_entry validate_destroy observe_destroy
    initialize read_state judge_destroy settle_destroy commit persist lookup insert
destroy-misses_example =
    destroy-misses sample_codec sample_numerals sample_host alone stop_a 1 (unit_a destroyed none 1)
      orphaned (holding (unit_a destroyed none 1)) refl refl refl refl refl refl (refl, tt)

-- The record of generation 1 was destroyed; an ensure request of generation 2 is answered.
destroyed_stays_destroyed_example : 1 < 2
unfolding observe_destroy observe_ensure initialize judge_ensure judge_destroy settle_ensure
    settle_destroy commit persist lookup insert
destroyed_stays_destroyed_example =
    destroyed_stays_destroyed sample_codec calm calm target_a (record target_a { generation = 2 })
      (unit_a destroyed (some "a:1:111") 1) (unit_a ensured none 2) {s = started.store}
      {s1 = ended.store} {s2 = ended.store} {s3 = holding (unit_a ensured none 2)}
      (holding-IsSound ensured (some "a:1:111") 1) (a_named, s_named, noon_named)
      (a_named, s_named, noon_named) refl here refl refl

history_advances_example :
    Progress sample_codec empty_store (observe_ensure sample_codec calm target_a empty_store).1
history_advances_example =
    history_advances sample_codec {s = empty_store}
      {u = (observe_ensure sample_codec calm target_a empty_store).1} here
      (next here (ensure calm target_a (a_named, s_named, noon_named)))

commit-IsKept_example :
    IsKept sample_codec written calm (unit_a destroyed none 1) (holding (unit_a ensured none 1))
commit-IsKept_example =
    commit-IsKept sample_codec written calm (unit_a destroyed none 1)
      (holding (unit_a ensured none 1)) refl refl (a_named, s_named, noon_named)
      (holding-IsSound ensured none 1)

parse-external_ref_example :
    parse_external_ref sample_numerals (external_ref_of sample_numerals "a" 2 3)
    ≡ some (record { allocation_id = "a"; generation = 2; pid = 3 })
unfolding is_allocation_id is_id_char all_id_chars
parse-external_ref_example =
    parse-external_ref sample_numerals "a" 2 3 refl (omega arith) (omega arith) (omega arith)

-- An id of dots alone passes the pattern of the allocation ids.
dots_pass : is_allocation_id ".." ≡ true
unfolding is_allocation_id is_id_char all_id_chars
dots_pass = refl
