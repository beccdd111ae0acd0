-- ===== src/Threads/Tests.antt =====
-- Runs of the chains of replies.
use workbench.Prelude.{
  ℕ, ◌<◌, ◌≡◌, refl, String, ◌==◌, eq_iff, Option, none, some, or_else, List, [], ◌∷◌, Dict, lookup,
  insert, contains, add, add_all, arith, ap, subst, inl, inr, Bool-cases, if◌then◌else◌,
}
use workbench.Threads.{
  ThreadMessage, root_of, last, parents, parents_from, parent_id_of, last_known,
}
use mathlib.Core.List.{Perm}
use workbench.Threads.{message_ids, participants_of}
use workbench.Threads.Grouping.{Runtime, Thread, derive_threads, key_of}
use workbench.Threads.Partition.{derive_threads-Perm, thread_ids}
use workbench.Threads.Direct.{DmThread, index_messages, derive_dm_threads}
use workbench.Threads.WithAgent.{AreDirect, derive_dm_threads-AreDirect}

abbrev message : String → Option String → ThreadMessage
message id parent = record {
  message_id = id;
  from = "one";
  to = "two" ∷ [];
  cc = none;
  subject = none;
  list_id = none;
  in_reply_to = parent;
  references = none;
}

abbrev reply : Dict String
reply = ("b", "a") ∷ []

abbrev cycle : Dict String
cycle = ("a", "b") ∷ ("b", "a") ∷ []

-- Two messages that reply to each other make a cycle.
parents_of_cycle : parents (message "a" (some "b") ∷ message "b" (some "a") ∷ []) ≡ cycle
unfolding parents parents_from parent_id_of insert contains add add_all last_known
parents_of_cycle = refl

abbrev depth : String → ℕ
depth id = if id == "b" then 1 else 0

depth_falls : (child p : String) → lookup child reply ≡ some p → depth p < depth child
unfolding lookup
depth_falls child p e = elim (Bool-cases ("b" == child)) [
  | inl same ↦
      subst (λ q. depth q < depth child) (ap (λ o. or_else o p) (rw same at e))
        (subst (λ c. depth "a" < depth c) ((eq_iff "b" child).0 same) (omega arith))
  | inr other ↦ absurd (cc (rw other at e))
]

-- Texts that are normal, and a sort that the example does not need.
abbrev plain_runtime : Runtime
plain_runtime = record {
  normalize = λ s. s;
  normalize_subject = λ s. s;
  sorted_json = λ ss. or_else (last ss) "";
}

abbrev two_messages : List ThreadMessage
two_messages = message "a" none ∷ message "b" (some "a") ∷ []

parents_of_two : parents two_messages ≡ reply
unfolding parents parents_from parent_id_of insert contains add add_all last_known
parents_of_two = refl

two_fall : (child p : String) → lookup child (parents two_messages) ≡ some p → depth p < depth child
two_fall child p e = depth_falls child p (rw parents_of_two at e)

derive_threads-Perm_example :
    (threads : List Thread) × (derive_threads plain_runtime 2 two_messages ≡ some threads)
    × Perm (thread_ids threads) (message_ids two_messages)
derive_threads-Perm_example =
    derive_threads-Perm plain_runtime depth 2 two_messages two_fall (omega arith, (omega arith, tt))

abbrev direct : DmThread
direct = record { agent_address = "two"; root_message_id = "a"; ids = "a" ∷ "b" ∷ [] }

two_direct : derive_dm_threads plain_runtime 2 two_messages ("one" ∷ []) ≡ some (direct ∷ [])
unfolding derive_dm_threads derive_threads root_of lookup parents parent_id_of contains add_all add
    insert key_of index_messages participants_of
two_direct = refl

derive_dm_threads-AreDirect_example :
    (ts : List Thread) × (derive_threads plain_runtime 2 two_messages ≡ some ts)
    × AreDirect plain_runtime (index_messages [] two_messages) ("one" ∷ []) ts (direct ∷ [])
derive_dm_threads-AreDirect_example =
    derive_dm_threads-AreDirect plain_runtime 2 two_messages ("one" ∷ []) (direct ∷ []) two_direct
