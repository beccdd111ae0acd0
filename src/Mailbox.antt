-- ===== src/Mailbox.antt =====
-- A person's mail to agents (apps/hub/src/mailbox-send.ts): each run it is addressed to is triggered over
-- the hub's own route, and the other addresses get it by the mail path. Parameters are the hub's answers
-- to the triggers, given those before, the mail path, the addresses' parser, the decoder and the schema
-- of an error. A request to the hub's own app does not throw. Texts of a frame are lists of character
-- codes.
mod Delivery
mod Tests
use workbench.Prelude.{
  ℕ, String, ◌==◌, ◌<>◌, Bool, true, false, not, ◌&&◌, Option, none, some, or_else, List, [], ◌∷◌,
  ◌++◌, map, keep, is_some, nat_eq, if◌then◌else◌,
}
use workbench.Prelude.Action.{Attempt, done, thrown, Action, pure, throw, ◌>>=◌, ◌>>◌, modify}
use workbench.Hub.{is_ok}

-- `message.from`, `to` and `raw`
pub record OutgoingMessage (Raw : Type 0) : Type 0 where
  pub sender : String
  pub recipients : List String
  pub raw : Raw

-- What the send route's request has
pub record Context : Type 0 where
  pub tenant_id : Option String
  pub cookie : Option String
  pub authorization : Option String

-- A request to the trigger route
pub record Trigger : Type 0 where
  pub path : String
  pub headers : List (String × String)
  pub content : List ℕ

-- The answer to a trigger: its status, and the text of its body
pub record TriggerAnswer : Type 0 where
  pub status : ℕ
  pub detail : String

pub record PersistArgs (Raw : Type 0) : Type 0 where
  pub sender_address : String
  pub persist_recipients : List String
  pub persist_raw : Raw

-- What is thrown: there is no request, the run has finished, the trigger failed, or the mail path threw
pub data MailError : Type 0 where
  outside_request : MailError
  run_finished : String → MailError
  trigger_failed : String → ℕ → String → MailError
  persist_failed : String → MailError

-- What was done: the triggers that were sent, what was given to the mail path, and the runs whose
-- failed triggers were reported
pub record Mailed (Raw : Type 0) : Type 0 where
  pub triggers : List Trigger
  pub persisted : List (PersistArgs Raw)
  pub reported : List String

pub record Hub (Raw : Type 0) : Type 0 where
  pub parse_run_address : String → Option String
  pub decode : Raw → List ℕ
  pub trim_end : List ℕ → List ℕ
  pub encode : String → String
  pub answer_to : List Trigger → Trigger → TriggerAnswer
  pub error_code : String → Option String  -- `TriggerError`
  pub persist_mail : PersistArgs Raw → Option String

-- What is behind "\r\n\r\n", if the text starts with it
abbrev pub behind_blank_line : List ℕ → Option (List ℕ)
behind_blank_line (a ∷ b ∷ c ∷ d ∷ rest) =
    if nat_eq a 13 && nat_eq b 10 && nat_eq c 13 && nat_eq d 10 then some rest else none
behind_blank_line _ = none

abbrev pub first_body : Option (List ℕ) → Option (List ℕ) → Option (List ℕ)
first_body none later = later
first_body (some rest) later = some rest

-- What is behind the first "\r\n\r\n"
unfoldable pub after_headers : List ℕ → Option (List ℕ)
after_headers [] = none
after_headers (c ∷ cs) =
    let later = after_headers cs in first_body (behind_blank_line (c ∷ cs)) later

abbrev pub header : String → Option String → List (String × String)
header name none = []
header name (some value) = (name, value) ∷ []

module _ {Raw : Type 0} (hub : Hub Raw) where
  abbrev pub trimmed_body : Option (List ℕ) → List ℕ
  trimmed_body none = []
  trimmed_body (some rest) = (hub.trim_end) rest

  unfoldable pub frame_body : Raw → List ℕ
  unfolding after_headers
  frame_body raw = trimmed_body (after_headers ((hub.decode) raw))

  -- `workflow_run_terminal` is the one 409 that means the run is finished.
  abbrev pub is_terminal_code : Option String → Bool
  is_terminal_code none = false
  is_terminal_code (some code) = code == "workflow_run_terminal"

  unfoldable pub is_terminal_run : ℕ → String → Bool
  is_terminal_run status detail =
      if nat_eq status 409 then is_terminal_code ((hub.error_code) detail) else false

  abbrev pub with_run : Option String → List String → List String
  with_run none rest = rest
  with_run (some run_id) rest = run_id ∷ rest

  -- `runs`
  unfoldable pub run_ids : List String → List String
  run_ids [] = []
  run_ids (address ∷ addresses) = with_run ((hub.parse_run_address) address) (run_ids addresses)

  -- `others`
  abbrev pub other_addresses : List String → List String
  other_addresses addresses =
      keep (λ address. not (is_some ((hub.parse_run_address) address))) addresses

  unfoldable pub trigger_of : Context → List ℕ → String → Trigger
  trigger_of context content run_id = record {
    path =
        "/api/tenants/"
        <> (hub.encode) (or_else context.tenant_id "")
        <> "/workflows/"
        <> (hub.encode) run_id
        <> "/mail";
    headers =
        ("content-type", "application/json")
        ∷ (header "cookie" context.cookie ++ header "authorization" context.authorization);
    content = content;
  }

  abbrev pub Delivery : Type 0
  Delivery = Action (Mailed Raw) MailError (Unit {0})

  -- A response that is not `ok`
  abbrev pub trigger_error : String → TriggerAnswer → Delivery
  trigger_error run_id answer s =
      if is_terminal_run answer.status answer.detail then (thrown (run_finished run_id), s) else (
        thrown (trigger_failed run_id answer.status answer.detail),
        record s { reported = s.reported ++ run_id ∷ [] },
      )

  unfoldable pub send_trigger : Context → List ℕ → String → Delivery
  unfolding trigger_of is_terminal_run
  send_trigger context content run_id s =
      let trigger = trigger_of context content run_id in
      let answer = (hub.answer_to) s.triggers trigger in
      let sent = record s { triggers = s.triggers ++ trigger ∷ [] } in
      if is_ok answer.status then (done tt, sent) else trigger_error run_id answer sent

  -- The loop over `runs`
  unfoldable pub send_triggers : Context → List ℕ → List String → Delivery
  unfolding send_trigger
  send_triggers context content [] = pure tt
  send_triggers context content (run_id ∷ run_ids) =
      send_trigger context content run_id >> send_triggers context content run_ids

  unfoldable pub trigger_runs : Option Context → List ℕ → List String → Delivery
  unfolding send_triggers
  trigger_runs context content [] = pure tt
  trigger_runs none content (run_id ∷ run_ids) = throw outside_request
  trigger_runs (some context) content (run_id ∷ run_ids) =
      send_triggers context content (run_id ∷ run_ids)

  abbrev pub persisted_or_thrown : Option String → Delivery
  persisted_or_thrown none = pure tt
  persisted_or_thrown (some message) = throw (persist_failed message)

  abbrev pub persist_args : OutgoingMessage Raw → List String → PersistArgs Raw
  persist_args message others = record {
    sender_address = message.sender;
    persist_recipients = others;
    persist_raw = message.raw;
  }

  unfoldable pub persist_frame : PersistArgs Raw → Delivery
  persist_frame args s =
      persisted_or_thrown ((hub.persist_mail) args)
        (record s { persisted = s.persisted ++ args ∷ [] })

  unfoldable pub persist_others : OutgoingMessage Raw → List String → Delivery
  unfolding persist_frame
  persist_others message [] = pure tt
  persist_others message (address ∷ addresses) =
      persist_frame (persist_args message (address ∷ addresses))

  -- What `createMailboxDeliver` returns
  unfoldable pub deliver : Option Context → OutgoingMessage Raw → Delivery
  unfolding run_ids trigger_runs frame_body persist_others
  deliver context message =
      trigger_runs context (frame_body message.raw) (run_ids message.recipients)
      >> persist_others message (other_addresses message.recipients)
