-- ===== src/Mailbox/Tests.antt =====
-- Runs of a delivery, and the witness.
use workbench.Prelude.{
  ℕ, ◌≡◌, refl, String, ◌==◌, Option, none, some, List, [], ◌∷◌, map, if◌then◌else◌,
}
use workbench.Prelude.Action.{thrown}
use workbench.Mailbox.{
  OutgoingMessage, Context, Trigger, TriggerAnswer, run_finished, outside_request, Mailed, Hub,
  frame_body, trigger_of, deliver,
}
use workbench.Mailbox.Delivery.{trigger}

abbrev run_address : String → Option String
run_address address =
    if address == "one@runs" then some "one" else if address == "two@runs" then some "two" else none

abbrev same_codes : List ℕ → List ℕ
same_codes codes = codes

abbrev same_text : String → String
same_text s = s

-- The run "two" has finished.
abbrev answer : List Trigger → Trigger → TriggerAnswer
answer sent t =
    if t.path == "/api/tenants/t/workflows/two/mail"
    then record { status = 409; detail = "workflow_run_terminal" }
    else record { status = 202; detail = "" }

abbrev hub : Hub (List ℕ)
hub = record {
  parse_run_address = run_address;
  decode = same_codes;
  trim_end = same_codes;
  encode = same_text;
  answer_to = answer;
  error_code = λ detail. some detail;
  persist_mail = λ args. none;
}

abbrev context : Context
context = record { tenant_id = some "t"; cookie = some "c"; authorization = none }

abbrev message : List String → OutgoingMessage (List ℕ)
message to = record {
  sender = "me";
  recipients = to;
  raw = 70 ∷ 13 ∷ 10 ∷ 13 ∷ 10 ∷ 104 ∷ 105 ∷ [];
}

abbrev nothing_mailed : Mailed (List ℕ)
nothing_mailed = record { triggers = []; persisted = []; reported = [] }

the_body : frame_body hub (message []).raw ≡ 104 ∷ 105 ∷ []
unfolding frame_body
the_body = refl

finished :
    deliver hub (some context) (message ("one@runs" ∷ "two@runs" ∷ "bob" ∷ [])) nothing_mailed ≡ (
      thrown (run_finished "two"),
      record nothing_mailed {
        triggers = map (trigger hub context (104 ∷ 105 ∷ [])) ("one" ∷ "two" ∷ []);
      },
    )
unfolding deliver trigger_of
finished = refl

no_request :
    (deliver hub none (message ("one@runs" ∷ "bob" ∷ [])) nothing_mailed).0 ≡ thrown outside_request
unfolding deliver
no_request = refl
