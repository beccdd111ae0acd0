-- ===== src/Provision/Progress.antt =====
-- One call leads an allocation, and what waits, waits for a call that runs or has ended.
use workbench.Prelude.{
  ℕ, ◌≡◌, ◌≢◌, ◌⊎◌, inl, inr, refl, sym, ap, ◌∙◌, subst, String, ◌==◌, eq_iff, Bool, true, false,
  Option, none, some, lookup, arith, some_eq, Bool-cases, Option-cases,
}
use workbench.Provision.InFlight.{
  Phase, leading, waiting, following, ended, Call, Calls, remove_key, join_call, ensure_call,
  is_call, clear_call, set_phase, woken, CallStep, called, led, followed, cleared, woke, CallReach,
  start, later,
}
use workbench.Provision.Coalesced.{
  Inv, Ahead, IsAhead, leads, is_over, IsPast, runs_after, is_done, lookup-remove_key, not_waiting,
  set_phase-Inv, join-Inv, lead-Inv,
}

is_call-eq : (o : Option ℕ) (i : ℕ) → is_call o i ≡ true → o ≡ some i
is_call-eq none i e = cc
is_call-eq (some j) i e = ap some (ground (arith, e))

not_over : {p : Phase} {b : Bool} → p ≡ leading → p ≢ ended b
not_over e f = cc

-- The entry that is cleared belongs to a call that has ended.
removed-Inv :
    (s : Calls) (i : ℕ) (call : Call) (b : Bool)
    → Inv s
    → s.calls i ≡ some call
    → call.phase ≡ ended b
    → lookup call.key s.in_flight ≡ some i
    → Inv (record s { in_flight = remove_key call.key s.in_flight })
removed-Inv s i call b inv here over mine = record {
  led_in_flight = λ j o e lead.
      lookup-remove_key call.key o.key s.in_flight ∙ elim (Bool-cases (call.key == o.key)) [
        | inl same ↦
            let same_key = (eq_iff call.key o.key).0 same in
            let same_call : i ≡ j = some_eq (
              sym (subst (λ k. lookup k s.in_flight ≡ some i) same_key mine)
              ∙ inv.led_in_flight j o e lead) in
            let same_record : call ≡ o = some_eq (sym here ∙ ap s.calls same_call ∙ e) in
            absurd (not_over lead (ap (λ (c : Call). c.phase) (sym same_record) ∙ over))
        | inr other ↦ rw other (inv.led_in_flight j o e lead)
      ];
  flight_ahead = λ k j e. elim (Bool-cases (call.key == k)) [
    | inl same ↦ absurd (cc (rw same at (sym (lookup-remove_key call.key k s.in_flight) ∙ e)))
    | inr other ↦
        inv.flight_ahead k j (rw other at (sym (lookup-remove_key call.key k s.in_flight) ∙ e))
  ];
  waits_ahead = inv.waits_ahead;
}

clear_call-Inv :
    (s : Calls) (i : ℕ) (call : Call) (b : Bool)
    → Inv s
    → s.calls i ≡ some call
    → call.phase ≡ ended b
    → Inv (clear_call i call.key s)
unfolding clear_call
clear_call-Inv s i call b inv here over =
    elim (Bool-cases (is_call (lookup call.key s.in_flight) i)) [
      | inl mine ↦
          rw mine
            (removed-Inv s i call b inv here over (is_call-eq (lookup call.key s.in_flight) i mine))
      | inr other ↦ rw other inv
    ]

ensure_call-Inv :
    (s : Calls) (i : ℕ) (key : String) → Inv s → s.calls i ≡ none → Inv (ensure_call i key s)
unfolding ensure_call
ensure_call-Inv s i key inv fresh = elim (Option-cases (lookup key s.in_flight)) [
  | inl empty ↦
      subst (λ o. Inv (join_call o i key s)) (sym empty) (lead-Inv s i key inv fresh empty)
  | inr (leader, there) ↦
      subst (λ o. Inv (join_call o i key s)) (sym there) (join-Inv s i leader key inv fresh there)
]

woken-IsPast : (b : Bool) → IsPast (woken b)
woken-IsPast true = runs_after
woken-IsPast false = is_done false

CallStep-Inv : {s t : Calls} → Inv s → CallStep s t → Inv t
CallStep-Inv {s} inv (called i key fresh) = ensure_call-Inv s i key inv fresh
CallStep-Inv {s} inv (led i call b here lead) =
    set_phase-Inv s i call (ended b) inv here (is_done b) (λ _. is_over b)
CallStep-Inv {s} inv (followed i call b here follows) =
    set_phase-Inv s i call (ended b) inv here (is_done b) (λ _. is_over b)
CallStep-Inv {s} inv (cleared i call b here over) = clear_call-Inv s i call b inv here over
CallStep-Inv {s} inv (woke i l call other b here waits there over) =
    set_phase-Inv s i call (woken b) inv here (woken-IsPast b)
      (λ ahead. absurd (not_waiting waits ahead))

CallReach-Inv : {s : Calls} → CallReach s → Inv s
unfolding lookup
CallReach-Inv start = record {
  led_in_flight = λ i call e lead. absurd cc;
  flight_ahead = λ k i e. absurd cc;
  waits_ahead = λ i l call e waits. absurd cc;
}
CallReach-Inv (later r step) = CallStep-Inv (CallReach-Inv r) step

-- A call that waits can go on now, or waits for the call that is in flight for its allocation, which runs.
abbrev pub CanGoOn : Calls → ℕ → Call → ℕ → Type 0
CanGoOn s i call l =
    (CallStep s (set_phase i call following s) ⊎ CallStep s (set_phase i call (ended false) s))
    ⊎ ((leader : Call) × (s.calls l ≡ some leader)
        × (leader.phase ≡ leading)
        × (lookup call.key s.in_flight ≡ some l))

go_on :
    (s : Calls) (i l : ℕ) (call : Call) (a : Ahead s.calls l call.key) (p : Phase)
    → Inv s
    → s.calls i ≡ some call
    → call.phase ≡ waiting l
    → a.call.phase ≡ p
    → IsAhead p
    → CanGoOn s i call l
go_on s i l call a leading inv here waits e leads = inr (
  a.call,
  a.known,
  e,
  subst (λ k. lookup k s.in_flight ≡ some l) a.same_key (inv.led_in_flight l a.call a.known e),
)
go_on s i l call a (waiting m) inv here waits e ahead = absurd (not_waiting refl ahead)
go_on s i l call a following inv here waits e ahead = elim ahead [ ]
go_on s i l call a (ended true) inv here waits e (is_over b) =
    inl (inl (woke i l call a.call true here waits a.known e))
go_on s i l call a (ended false) inv here waits e (is_over b) =
    inl (inr (woke i l call a.call false here waits a.known e))

-- In every state that the calls of `ensure` reach, whatever their order, a call that waits for another
-- can go on now, or fail with it now, or the other one is running and is the one that is in flight for
-- the same allocation: no call waits for one that will not end on its own.
pub reach-CanGoOn :
    {s : Calls} (i l : ℕ) (call : Call)
    → CallReach s
    → s.calls i ≡ some call
    → call.phase ≡ waiting l
    → CanGoOn s i call l
reach-CanGoOn {s} i l call r here waits =
    let inv = CallReach-Inv r in
    let a = inv.waits_ahead i l call here waits in
    go_on s i l call a a.call.phase inv here waits refl a.ahead

-- In every state that the calls of `ensure` reach, whatever their order, at most one of the running
-- calls for an allocation is one that found none in flight: where a call is such a one, another call
-- for the same allocation is not.
pub reach-leader_unique :
    {s : Calls} (i j : ℕ) (call other : Call)
    → CallReach s
    → s.calls i ≡ some call
    → call.phase ≡ leading
    → s.calls j ≡ some other
    → call.key ≡ other.key
    → i ≢ j
    → other.phase ≢ leading
reach-leader_unique {s} i j call other r here lead there same differ lead' =
    let inv = CallReach-Inv r in
    differ (
      some_eq (
        sym (subst (λ k. lookup k s.in_flight ≡ some i) same (inv.led_in_flight i call here lead))
        ∙ inv.led_in_flight j other there lead'))
