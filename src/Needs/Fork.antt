-- ===== src/Needs/Fork.antt =====
-- `forkSubThread` of apps/web/src/needs-converge.ts: a fork is sent once, and replayed by the id that
-- was recorded. The answers of the hub to the mails are a list that each sent mail takes one from.
use workbench.Prelude.{
  String, ◌==◌, Bool, true, false, ◌&&◌, Option, none, some, List, [], ◌∷◌, find,
}
use workbench.Prelude.Action.{Action, Attempt, pure, ◌>>=◌, ◌>>◌, modify}
use workbench.Threads.{build_fork_reference, ForkReference}
use workbench.Needs.{Json, Storage, ThreadLink, load_thread_links, record_thread_link}

pub record ForkParent : Type 0 where
  pub workbench_local_id : String
  pub tenant_id : String
  pub message_id : String
  pub references : Option (List String)

pub record ForkInput : Type 0 where
  pub to : List String
  pub subject : String
  pub body : String

-- `SendRunMailInput`, with the headers
pub record SendInput : Type 0 where
  pub tenant_id : String
  pub to : List String
  pub subject : String
  pub body : String
  pub headers : ForkReference

-- The storage, and the mails that the hub was asked to send, the last one first.
pub record ForkWorld (json : Json ThreadLink) : Type 0 where
  pub storage : Storage json
  pub sent : List SendInput

abbrev pub is_same : Option String → String → Bool
is_same none s = false
is_same (some t) s = t == s

abbrev pub is_absent_or : Option String → String → Bool
is_absent_or none s = true
is_absent_or (some t) s = t == s

-- The same addresses, in order.
unfoldable pub same_addresses : List String → List String → Bool
same_addresses [] [] = true
same_addresses [] (y ∷ ys) = false
same_addresses (x ∷ xs) [] = false
same_addresses (x ∷ xs) (y ∷ ys) = x == y && same_addresses xs ys

abbrev pub same_to : Option (List String) → List String → Bool
same_to none to = true
same_to (some xs) to = same_addresses xs to

unfoldable pub is_replay : ForkParent → ForkInput → ThreadLink → Bool
unfolding same_addresses
is_replay parent input link =
    link.workbench_local_id == parent.workbench_local_id
    && is_same link.in_reply_to parent.message_id
    && is_same link.subject input.subject
    && same_to link.to input.to
    && is_absent_or link.body input.body

abbrev pub link_of : ForkParent → ForkInput → ForkReference → String → ThreadLink
link_of parent input fork message_id = record {
  workbench_local_id = parent.workbench_local_id;
  message_id = message_id;
  in_reply_to = some fork.in_reply_to;
  references = some fork.references;
  subject = some input.subject;
  to = some input.to;
  body = some input.body;
}

abbrev pub mail_of : ForkParent → ForkInput → ForkReference → SendInput
mail_of parent input fork = record {
  tenant_id = parent.tenant_id;
  to = input.to;
  subject = input.subject;
  body = input.body;
  headers = fork;
}

-- `sendRunMail`: the hub answers with an id or an error.
abbrev pub send_mail :
    {E : Type 0} (json : Json ThreadLink)
    → (ForkWorld json → Attempt E String)
    → SendInput
    → Action (ForkWorld json) E String
send_mail json answer mail w = (answer w, record w { sent = mail ∷ w.sent })

module _ {E : Type 0} (json : Json ThreadLink) (answer : ForkWorld json → Attempt E String)
    (key : String) where
  unfoldable pub send_fork : ForkParent → ForkInput → Action (ForkWorld json) E String
  unfolding build_fork_reference
  send_fork parent input =
      let fork = build_fork_reference parent.message_id parent.references in
      do
        message_id ← send_mail json answer (mail_of parent input fork)
        modify (λ w. record w {
          storage = record_thread_link json key (link_of parent input fork message_id) w.storage;
        })
        pure message_id

  abbrev pub replay_or_send :
      ForkParent → ForkInput → Option ThreadLink → Action (ForkWorld json) E String
  replay_or_send parent input none = send_fork parent input
  replay_or_send parent input (some link) = pure link.message_id

  unfoldable pub fork_sub_thread : ForkParent → ForkInput → Action (ForkWorld json) E String
  unfolding send_fork
  fork_sub_thread parent input w =
      replay_or_send parent input
        (find (is_replay parent input) (load_thread_links json key w.storage)) w
