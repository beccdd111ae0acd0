-- ===== src/Provision/CallTests.antt =====
-- Runs of three calls of `ensure` for one allocation.
use workbench.Prelude.{◌≡◌, ◌≢◌, refl, true, some, lookup, insert, arith}
use workbench.Provision.InFlight.{
  Phase, leading, waiting, following, ended, Call, Calls, ensure_call, clear_call, remove_key,
  set_phase, no_calls, CallReach, start, later, called, led, cleared, woke,
}
use workbench.Provision.Progress.{CanGoOn, reach-CanGoOn, reach-leader_unique}

abbrev call : Phase → Call
call phase = record { key = "a"; phase = phase }

abbrev one : Calls
one = ensure_call 0 "a" no_calls

abbrev two : Calls
two = ensure_call 1 "a" one

abbrev three : Calls
three = ensure_call 2 "a" two

one_reached : CallReach one
one_reached = later start (called 0 "a" refl)

two_reached : CallReach two
unfolding ensure_call lookup insert
two_reached = later one_reached (called 1 "a" refl)

three_reached : CallReach three
unfolding ensure_call lookup insert
three_reached = later two_reached (called 2 "a" refl)

reach-CanGoOn_example : CanGoOn two 1 (call (waiting 0)) 0
unfolding ensure_call lookup insert
reach-CanGoOn_example = reach-CanGoOn 1 0 (call (waiting 0)) two_reached refl refl

reach-leader_unique_example : waiting 0 ≢ leading
unfolding ensure_call lookup insert
reach-leader_unique_example =
    reach-leader_unique 0 1 (call leading) (call (waiting 0)) two_reached refl refl refl refl
      (λ e. omega (arith, e))

abbrev over : Calls
over = set_phase 0 (call leading) (ended true) three

abbrev empty : Calls
empty = clear_call 0 "a" over

abbrev second_runs : Calls
second_runs = set_phase 1 (call (waiting 0)) following empty

abbrev both_run : Calls
both_run = set_phase 2 (call (waiting 0)) following second_runs

both_reached : CallReach both_run
unfolding ensure_call lookup insert clear_call remove_key
both_reached =
    later
      (later
        (later (later three_reached (led 0 (call leading) true refl refl))
          (cleared 0 (call (ended true)) true refl refl))
        (woke 1 0 (call (waiting 0)) (call (ended true)) true refl refl refl refl))
      (woke 2 0 (call (waiting 0)) (call (ended true)) true refl refl refl refl)

-- Two calls for one allocation run at once, although neither is the other's leader.
two_run : (both_run.calls 1 ≡ some (call following)) × (both_run.calls 2 ≡ some (call following))
unfolding ensure_call lookup insert clear_call remove_key
two_run = (refl, refl)
