-- ===== src/Provision/InFlight.antt =====
-- The calls of `ensure` in flight, in apps/hub/src/provisioners/process.ts: `inFlightEnsures` and the
-- promises that wait on each other. A call is named by a number that is fresh when it is made; the
-- steps are the call itself, the end of its `ensureOnce`, its `clear` and the start of one that waited,
-- in any order that the promises allow.
use workbench.Prelude.{
  ℕ, ◌≡◌, String, ◌==◌, Bool, true, false, Option, none, some, [], ◌∷◌, Dict, lookup, insert,
  nat_eq, if◌then◌else◌,
}

-- Where a call is: its own `ensureOnce` runs as the one in flight, it waits for another call, its
-- `ensureOnce` runs after that one, or it has ended, with a result or not.
pub data Phase : Type 0 where
  leading : Phase
  waiting : ℕ → Phase
  following : Phase
  ended : Bool → Phase

pub record Call : Type 0 where
  pub key : String
  pub phase : Phase

pub record Calls : Type 0 where
  pub in_flight : Dict ℕ
  pub calls : ℕ → Option Call

abbrev pub update : (ℕ → Option Call) → ℕ → Call → ℕ → Option Call
update calls i call j = if nat_eq i j then some call else calls j

unfoldable pub remove_key : String → Dict ℕ → Dict ℕ
remove_key k [] = []
remove_key k ((j, v) ∷ m) = let rest = remove_key k m in if j == k then rest else (j, v) ∷ rest

abbrev pub join_call : Option ℕ → ℕ → String → Calls → Calls
join_call (some leader) i key s = record s {
  calls = update s.calls i (record { key = key; phase = waiting leader });
}
join_call none i key s = record {
  in_flight = insert key i s.in_flight;
  calls = update s.calls i (record { key = key; phase = leading });
}

-- `ensure`, as the call `i`
unfoldable pub ensure_call : ℕ → String → Calls → Calls
ensure_call i key s = join_call (lookup key s.in_flight) i key s

abbrev pub is_call : Option ℕ → ℕ → Bool
is_call none i = false
is_call (some j) i = nat_eq j i

-- `clear` of the call `i`
unfoldable pub clear_call : ℕ → String → Calls → Calls
unfolding remove_key
clear_call i key s =
    if is_call (lookup key s.in_flight) i
    then record s { in_flight = remove_key key s.in_flight }
    else s

abbrev pub set_phase : ℕ → Call → Phase → Calls → Calls
set_phase i call phase s = record s { calls = update s.calls i (record call { phase = phase }) }

-- A call that waited goes on if the other one has a result, and fails with it otherwise.
abbrev pub woken : Bool → Phase
woken true = following
woken false = ended false

pub data CallStep (s : Calls) : Calls → Type 0 where
  called : (i : ℕ) (key : String) → s.calls i ≡ none → CallStep s (ensure_call i key s)
  led :
      (i : ℕ) (call : Call) (b : Bool)
      → s.calls i ≡ some call
      → call.phase ≡ leading
      → CallStep s (set_phase i call (ended b) s)
  followed :
      (i : ℕ) (call : Call) (b : Bool)
      → s.calls i ≡ some call
      → call.phase ≡ following
      → CallStep s (set_phase i call (ended b) s)
  cleared :
      (i : ℕ) (call : Call) (b : Bool)
      → s.calls i ≡ some call
      → call.phase ≡ ended b
      → CallStep s (clear_call i call.key s)
  woke :
      (i l : ℕ) (call other : Call) (b : Bool)
      → s.calls i ≡ some call
      → call.phase ≡ waiting l
      → s.calls l ≡ some other
      → other.phase ≡ ended b
      → CallStep s (set_phase i call (woken b) s)

abbrev pub no_calls : Calls
no_calls = record { in_flight = []; calls = λ i. none }

pub data CallReach : Calls → Type 0 where
  start : CallReach no_calls
  later : {s t : Calls} → CallReach s → CallStep s t → CallReach t
