-- ===== src/Provision/Coalesced.antt =====
-- What every step of the calls of `ensure` keeps: the entry in flight is the call that leads, and what
-- waits, waits for a call that leads or has ended.
use workbench.Prelude.{
  ℕ, ◌≡◌, ◌≢◌, ◌⊎◌, inl, inr, refl, sym, ap, ◌∙◌, subst, String, ◌==◌, eq_iff, eq_refl, Bool, true,
  false, Option, none, some, [], ◌∷◌, Dict, lookup, insert, lookup-insert, nat_eq, arith, some_eq,
  Bool-cases, if◌then◌else◌,
}
use workbench.Provision.InFlight.{
  Phase, leading, waiting, following, ended, Call, Calls, update, remove_key, join_call, set_phase,
}

pub lookup-remove_key :
    (k other : String) (m : Dict ℕ)
    → lookup other (remove_key k m) ≡ (if k == other then none else lookup other m)
unfolding lookup remove_key
lookup-remove_key k other [] = ground arith
lookup-remove_key k other ((j, v) ∷ m) =
    ground (arith, lookup-remove_key k other m, eq_iff j k, eq_iff j other, eq_iff k other)

nat_eq_refl : (i : ℕ) → nat_eq i i ≡ true
nat_eq_refl i = ground arith

nat_eq-cases : (i j : ℕ) → ((i ≡ j) × (nat_eq i j ≡ true)) ⊎ ((i ≢ j) × (nat_eq i j ≡ false))
nat_eq-cases i j = elim (Bool-cases (nat_eq i j)) [
  | inl same ↦ inl (ground (arith, same), same)
  | inr other ↦ inr (λ e. ground (arith, other, e), other)
]

-- It leads, or has ended.
pub data IsAhead : Phase → Type 0 where
  leads : IsAhead leading
  is_over : (b : Bool) → IsAhead (ended b)

-- The call is known, is about the allocation, and leads or has ended.
pub record Ahead (calls : ℕ → Option Call) (i : ℕ) (k : String) : Type 0 where
  pub call : Call
  pub known : calls i ≡ some call
  pub same_key : call.key ≡ k
  pub ahead : IsAhead call.phase

pub record Inv (s : Calls) : Type 0 where
  pub led_in_flight :
      (i : ℕ) (call : Call)
      → s.calls i ≡ some call
      → call.phase ≡ leading
      → lookup call.key s.in_flight ≡ some i
  pub flight_ahead : (k : String) (i : ℕ) → lookup k s.in_flight ≡ some i → Ahead s.calls i k
  pub waits_ahead :
      (i l : ℕ) (call : Call)
      → s.calls i ≡ some call
      → call.phase ≡ waiting l
      → Ahead s.calls l call.key

module _ (calls : ℕ → Option Call) (i : ℕ) (new : Call) where
  update-cases :
      (j : ℕ) (o : Call)
      → update calls i new j ≡ some o
      → ((i ≡ j) × (new ≡ o)) ⊎ (calls j ≡ some o)
  update-cases j o e = elim (nat_eq-cases i j) [
    | inl (same, b) ↦ inl (same, some_eq (rw b at e))
    | inr (other, b) ↦ inr (rw b at e)
  ]

  update-Ahead :
      ((o : Call) → calls i ≡ some o → IsAhead o.phase → (new.key ≡ o.key) × IsAhead new.phase)
      → (l : ℕ) (k : String) → Ahead calls l k
      → Ahead (update calls i new) l k
  update-Ahead stays l k a = elim (nat_eq-cases i l) [
    | inl (same, b) ↦
        let (key, ahead) = stays a.call (ap calls same ∙ a.known) a.ahead in
        record { call = new; known = rw b refl; same_key = key ∙ a.same_key; ahead = ahead }
    | inr (other, b) ↦ record {
      call = a.call;
      known = rw b a.known;
      same_key = a.same_key;
      ahead = a.ahead;
    }
  ]

pub not_none : {A : Type 0} {o : Option A} {a : A} → o ≡ none → ◌≢◌ o (some a)
not_none e f = cc

pub not_waiting : {p : Phase} {l : ℕ} → p ≡ waiting l → ¬ IsAhead p
not_waiting e leads = cc
not_waiting e (is_over b) = cc

-- It neither leads nor waits.
pub data IsPast : Phase → Type 0 where
  runs_after : IsPast following
  is_done : (b : Bool) → IsPast (ended b)

past_leading : {p : Phase} → IsPast p → p ≢ leading
past_leading runs_after e = cc
past_leading (is_done b) e = cc

past_waiting : {p : Phase} {l : ℕ} → IsPast p → p ≢ waiting l
past_waiting runs_after e = cc
past_waiting (is_done b) e = cc

same_ahead :
    (s : Calls) (i : ℕ) (call : Call) (p : Phase)
    → s.calls i ≡ some call
    → (IsAhead call.phase → IsAhead p)
    → (o : Call) → s.calls i ≡ some o
    → IsAhead o.phase
    → (call.key ≡ o.key) × IsAhead p
same_ahead s i call p here stays o e ahead =
    let same : call ≡ o = some_eq (sym here ∙ e) in
    (ap (λ (c : Call). c.key) same, stays (subst (λ (c : Call). IsAhead c.phase) (sym same) ahead))

-- The call on which the others rely stays one.
pub set_phase-Inv :
    (s : Calls) (i : ℕ) (call : Call) (p : Phase)
    → Inv s
    → s.calls i ≡ some call
    → IsPast p
    → (IsAhead call.phase → IsAhead p)
    → Inv (set_phase i call p s)
set_phase-Inv s i call p inv here past stays = record {
  led_in_flight = λ j o e lead. elim (update-cases s.calls i (record call { phase = p }) j o e) [
    | inl (same, new) ↦ absurd (past_leading past (ap (λ (c : Call). c.phase) new ∙ lead))
    | inr old ↦ inv.led_in_flight j o old lead
  ];
  flight_ahead = λ k j e.
      update-Ahead s.calls i (record call { phase = p }) (same_ahead s i call p here stays) j k
        (inv.flight_ahead k j e);
  waits_ahead = λ j l o e waits. elim (update-cases s.calls i (record call { phase = p }) j o e) [
    | inl (same, new) ↦ absurd (past_waiting past (ap (λ (c : Call). c.phase) new ∙ waits))
    | inr old ↦
        update-Ahead s.calls i (record call { phase = p }) (same_ahead s i call p here stays) l
          o.key (inv.waits_ahead j l o old waits)
  ];
}

fresh_call :
    (s : Calls) (i : ℕ) (new : Call)
    → s.calls i ≡ none
    → (l : ℕ) (k : String) → Ahead s.calls l k
    → Ahead (update s.calls i new) l k
fresh_call s i new fresh = update-Ahead s.calls i new (λ o e ahead. absurd (not_none fresh e))

waiting_injective : {l m : ℕ} → waiting l ≡ waiting m → l ≡ m
waiting_injective e = cc

pub join-Inv :
    (s : Calls) (i leader : ℕ) (key : String)
    → Inv s
    → s.calls i ≡ none
    → lookup key s.in_flight ≡ some leader
    → Inv (join_call (some leader) i key s)
join-Inv s i leader key inv fresh there =
    let new : Call = record { key = key; phase = waiting leader } in
    record {
      led_in_flight = λ j o e lead. elim (update-cases s.calls i new j o e) [
        | inl (same, is_new) ↦
            absurd (
              not_waiting (ap (λ (c : Call). c.phase) (sym is_new))
                (subst IsAhead (sym lead) leads))
        | inr old ↦ inv.led_in_flight j o old lead
      ];
      flight_ahead = λ k j e. fresh_call s i new fresh j k (inv.flight_ahead k j e);
      waits_ahead = λ j l o e waits. elim (update-cases s.calls i new j o e) [
        | inl (same, is_new) ↦ fresh_call s i new fresh l o.key (
            subst (λ m. Ahead s.calls m o.key)
              (waiting_injective (ap (λ (c : Call). c.phase) is_new ∙ waits))
              (subst (Ahead s.calls leader) (ap (λ (c : Call). c.key) is_new)
                (inv.flight_ahead key leader there)))
        | inr old ↦ fresh_call s i new fresh l o.key (inv.waits_ahead j l o old waits)
      ];
    }

pub lead-Inv :
    (s : Calls) (i : ℕ) (key : String)
    → Inv s
    → s.calls i ≡ none
    → lookup key s.in_flight ≡ none
    → Inv (join_call none i key s)
lead-Inv s i key inv fresh empty =
    let new : Call = record { key = key; phase = leading } in
    record {
      led_in_flight = λ j o e lead. elim (update-cases s.calls i new j o e) [
        | inl (same, is_new) ↦
            subst (λ k. lookup k (insert key i s.in_flight) ≡ some j)
              (ap (λ (c : Call). c.key) is_new)
              (lookup-insert key key i s.in_flight ∙ rw (eq_refl key) (ap some same))
        | inr old ↦ lookup-insert key o.key i s.in_flight ∙ elim (Bool-cases (key == o.key)) [
          | inl mine ↦ absurd (
              not_none (subst (λ k. lookup k s.in_flight ≡ none) ((eq_iff key o.key).0 mine) empty)
                (inv.led_in_flight j o old lead))
          | inr other ↦ rw other (inv.led_in_flight j o old lead)
        ]
      ];
      flight_ahead = λ k j e. elim (Bool-cases (key == k)) [
        | inl same ↦
            subst (λ m. Ahead (update s.calls i new) m k)
              (some_eq (rw same at (sym (lookup-insert key k i s.in_flight) ∙ e)))
              (record {
                call = new;
                known = rw (nat_eq_refl i) refl;
                same_key = (eq_iff key k).0 same;
                ahead = leads;
              })
        | inr other ↦
            fresh_call s i new fresh j k
              (inv.flight_ahead k j (rw other at (sym (lookup-insert key k i s.in_flight) ∙ e)))
      ];
      waits_ahead = λ j l o e waits. elim (update-cases s.calls i new j o e) [
        | inl (same, is_new) ↦
            absurd (not_waiting (ap (λ (c : Call). c.phase) is_new ∙ waits) leads)
        | inr old ↦ fresh_call s i new fresh l o.key (inv.waits_ahead j l o old waits)
      ];
    }
