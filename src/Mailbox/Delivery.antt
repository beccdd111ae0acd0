-- ===== src/Mailbox/Delivery.antt =====
-- Deliveries of mail (apps/hub/src/mailbox-send.ts): the triggers of the runs, and the mail path.
use workbench.Prelude.{
  ℕ, ◌≡◌, refl, sym, ap, ◌∙◌, ◌⊎◌, inl, inr, String, true, false, Option, none, some, List, [], ◌∷◌,
  ◌++◌, map, append_assoc, append-nil, Bool-cases,
}
use workbench.Prelude.Action.{Attempt, done, thrown, ◌>>◌}
use workbench.Hub.{is_ok}
use workbench.Mailbox.{
  persist_failed, OutgoingMessage, Context, Trigger, TriggerAnswer, PersistArgs, MailError, Mailed,
  Hub, frame_body, is_terminal_run, run_ids, other_addresses, trigger_of, trigger_error,
  send_trigger, send_triggers, Delivery, persist_args, deliver,
}

module _ {Raw : Type 0} (hub : Hub Raw) (context : Context) (content : List ℕ) where
  abbrev pub trigger : String → Trigger
  trigger = trigger_of hub context content

  -- The hub accepts the triggers of these runs, one after the other.
  abbrev pub Accepted : List Trigger → List String → Type 0
  Accepted sent [] = Unit
  Accepted sent (run ∷ runs) =
      (is_ok ((hub.answer_to) sent (trigger run)).status ≡ true)
      × Accepted (sent ++ trigger run ∷ []) runs

  abbrev pub with_triggers : Mailed Raw → List String → Mailed Raw
  with_triggers s runs = record s { triggers = s.triggers ++ map trigger runs }

  -- The first run that was refused
  pub record Refused (s : Mailed Raw) (runs : List String) : Type 0 where
    pub before : List String
    pub refused_run : String
    pub behind : List String
    pub split : runs ≡ before ++ refused_run ∷ behind
    pub were_accepted : Accepted s.triggers before
    pub was_refused :
        is_ok ((hub.answer_to) (s.triggers ++ map trigger before) (trigger refused_run)).status
        ≡ false

  -- The outcome of the refusal: it and the runs before it were triggered.
  abbrev pub refusal :
      (s : Mailed Raw) (runs : List String)
      → Refused s runs
      → Attempt MailError (Unit {0}) × Mailed Raw
  refusal s runs r =
      trigger_error hub r.refused_run
        ((hub.answer_to) (s.triggers ++ map trigger r.before) (trigger r.refused_run))
        (with_triggers s (r.before ++ r.refused_run ∷ []))

  abbrev pub Sent : Mailed Raw → List String → Attempt MailError (Unit {0}) × Mailed Raw → Type 0
  Sent s runs result =
      (Accepted s.triggers runs × (result ≡ (done tt, with_triggers s runs)))
      ⊎ ((r : Refused s runs) × (result ≡ refusal s runs r))

  send_trigger-accepted :
      (run : String) (s : Mailed Raw)
      → is_ok ((hub.answer_to) s.triggers (trigger run)).status ≡ true
      → send_trigger hub context content run s ≡ (done tt, with_triggers s (run ∷ []))
  unfolding send_trigger
  send_trigger-accepted run s e = rw e

  send_trigger-refused :
      (run : String) (s : Mailed Raw)
      → is_ok ((hub.answer_to) s.triggers (trigger run)).status ≡ false
      → send_trigger hub context content run s
        ≡ trigger_error hub run
            ((hub.answer_to) s.triggers (trigger run))
            (with_triggers s (run ∷ []))
  unfolding send_trigger
  send_trigger-refused run s e = rw e

  -- A run ahead of those that were sent
  Sent-cons :
      (run : String) (runs : List String) (s : Mailed Raw)
      (result : Attempt MailError (Unit {0}) × Mailed Raw)
      → is_ok ((hub.answer_to) s.triggers (trigger run)).status ≡ true
      → Sent (with_triggers s (run ∷ [])) runs result
      → Sent s (run ∷ runs) result
  Sent-cons run runs s result ok (inl (accepted, e)) = inl ((ok, accepted), e ∙ rw append_assoc)
  Sent-cons run runs s result ok (inr (r, e)) = inr (
    record {
      before = run ∷ r.before;
      refused_run = r.refused_run;
      behind = r.behind;
      split = ap (λ l. run ∷ l) r.split;
      were_accepted = (ok, r.were_accepted);
      was_refused =
          rw (← append_assoc s.triggers (trigger run ∷ []) (map trigger r.before)) r.was_refused;
    },
    e ∙ simp append_assoc,
  )

  -- Nothing follows a refusal.
  trigger_error-ends :
      (run : String) (answer : TriggerAnswer) (s : Mailed Raw) (next : Delivery hub)
      → (trigger_error hub run answer >> next) s ≡ trigger_error hub run answer s
  trigger_error-ends run answer s next =
      elim (Bool-cases (is_terminal_run hub answer.status answer.detail)) [
        | inl e ↦ rw e
        | inr e ↦ rw e
      ]

  pub send_triggers-Sent :
      (runs : List String) (s : Mailed Raw) → Sent s runs (send_triggers hub context content runs s)
  unfolding send_triggers
  send_triggers-Sent [] s =
      inl (tt, ap (λ ts. (done tt, record s { triggers = ts })) (sym (append-nil s.triggers)))
  send_triggers-Sent (run ∷ runs) s =
      elim (Bool-cases (is_ok ((hub.answer_to) s.triggers (trigger run)).status)) [
        | inl ok ↦ Sent-cons run runs s _ ok (
            rw (send_trigger-accepted run s ok)
              (send_triggers-Sent runs (with_triggers s (run ∷ []))))
        | inr refused ↦ inr (
          record {
            before = [];
            refused_run = run;
            behind = runs;
            split = refl;
            were_accepted = tt;
            was_refused = rw (append-nil s.triggers) refused;
          },
          rw append-nil (
              rw (send_trigger-refused run s refused) (
                trigger_error-ends run ((hub.answer_to) s.triggers (trigger run))
                  (with_triggers s (run ∷ [])) (send_triggers hub context content runs))),
        )
      ]

module _ {Raw : Type 0} (hub : Hub Raw) where
  -- What the mail path is given for these addresses
  abbrev pub handed_over : OutgoingMessage Raw → List String → List (PersistArgs Raw)
  handed_over message [] = []
  handed_over message (address ∷ addresses) = persist_args hub message (address ∷ addresses) ∷ []

  abbrev pub persisted_outcome : Option String → Attempt MailError (Unit {0})
  persisted_outcome none = done tt
  persisted_outcome (some cause) = thrown (persist_failed cause)

  -- What becomes of that
  abbrev pub mail_outcome : OutgoingMessage Raw → List String → Attempt MailError (Unit {0})
  mail_outcome message [] = done tt
  mail_outcome message (address ∷ addresses) =
      persisted_outcome ((hub.persist_mail) (persist_args hub message (address ∷ addresses)))

  -- The two ways in which a delivery within a request ends
  abbrev pub Delivers : Context → OutgoingMessage Raw → Mailed Raw → Type 0
  Delivers context message s =
      let content = frame_body hub message.raw in
      let runs = run_ids hub message.recipients in
      let others = other_addresses hub message.recipients in
      (Accepted hub context content s.triggers runs
        × (deliver hub (some context) message s ≡ (
          mail_outcome message others,
          record s {
            triggers = s.triggers ++ map (trigger hub context content) runs;
            persisted = s.persisted ++ handed_over message others;
          },
        )))
      ⊎ ((r : Refused hub context content s runs) × (deliver hub (some context) message s
            ≡ refusal hub context content s runs r))
