-- ===== src/Needs/Tests.antt =====
-- Runs of the stores and of a fork.
use workbench.Prelude.{◌≡◌, refl, String, none, some, List, [], ◌∷◌, map, lookup, insert}
use workbench.Prelude.Action.{Attempt, done}
use workbench.Threads.{build_fork_reference, last}
use workbench.Needs.{
  Json, rows, ChildTenantRecord, is_child_tenant, is_thread_link, stored_rows, record_row,
  load_thread_links, record_thread_link,
}
use workbench.Needs.Fork.{ForkParent, ForkInput, ForkWorld, fork_sub_thread, send_fork, mail_of}
use workbench.Needs.Replay.{recorded, fork_sub_thread_again, fork_sub_thread_blank}

-- Texts that hold the rows themselves.
abbrev plain : {Row : Type 0} → Json Row
plain {Row} = record {
  Contents = List Row;
  stringify = λ rs. rs;
  parse = λ rs. rows (map some rs);
  parse-stringify = λ rs. refl;
}

abbrev child : String → ChildTenantRecord
child id = record {
  local_id = id;
  tenant_id = "t";
  primary_thread_message_id = none;
  icon = none;
  prefs = none;
}

-- A recorded row takes the place of the row of its id, at the end.
recorded_last :
    stored_rows plain is_child_tenant
      (λ r. r.local_id)
      "k"
      (record_row plain is_child_tenant
        (λ r. r.local_id)
        "k"
        (child "a")
        (("k", child "a" ∷ child "b" ∷ []) ∷ []))
    ≡ child "b" ∷ child "a" ∷ []
unfolding stored_rows record_row lookup insert is_child_tenant
recorded_last = refl

abbrev parent : ForkParent
parent = record { workbench_local_id = "w"; tenant_id = "t"; message_id = "m1"; references = none }

abbrev input : String → ForkInput
input subject = record { to = "x" ∷ []; subject = subject; body = "hi" }

abbrev empty_world : ForkWorld plain
empty_world = record { storage = []; sent = [] }

abbrev accepts : ForkWorld plain → Attempt String String
accepts w = done "m2"

abbrev forked : ForkWorld plain
forked = record {
  storage = ("k", recorded parent (input "s") "m2" ∷ []) ∷ [];
  sent = mail_of parent (input "s") (record { in_reply_to = "m1"; references = "m1" ∷ [] }) ∷ [];
}

forked_once : fork_sub_thread plain accepts "k" parent (input "s") empty_world ≡ (done "m2", forked)
unfolding fork_sub_thread send_fork load_thread_links record_thread_link stored_rows record_row
    lookup insert build_fork_reference last
forked_once = refl

fork_sub_thread_again_example :
    fork_sub_thread plain accepts "k" parent (input "s") forked ≡ (done "m2", forked)
unfolding is_thread_link build_fork_reference last
fork_sub_thread_again_example =
    fork_sub_thread_again plain accepts "k" parent (input "s") empty_world forked "m2" refl
      forked_once

fork_sub_thread_blank_example :
    (fork_sub_thread plain accepts "k" parent (input "") forked).1.sent
    ≡ mail_of parent (input "") (build_fork_reference "m1" none) ∷ forked.sent
fork_sub_thread_blank_example =
    fork_sub_thread_blank plain accepts "k" parent (input "") forked refl
