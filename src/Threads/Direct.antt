-- ===== src/Threads/Direct.antt =====
-- `deriveDmThreads` of apps/web/src/threads.ts: the threads between the user and one agent.
use workbench.Prelude.{
  ℕ, String, not, Option, none, some, List, [], ◌∷◌, map, keep, any, contains, add_all, Dict,
  lookup, insert, if◌then◌else◌,
}
use workbench.Threads.{ThreadMessage, participants_of}
use workbench.Threads.Grouping.{Runtime, Thread, derive_threads}

pub record DmThread : Type 0 where
  pub agent_address : String
  pub root_message_id : String
  pub ids : List String

-- `new Map(messages.map(…))`: the last message of an id stays.
unfoldable pub index_messages : Dict ThreadMessage → List ThreadMessage → Dict ThreadMessage
index_messages by_id [] = by_id
index_messages by_id (m ∷ ms) = index_messages (insert m.message_id m by_id) ms

abbrev pub only_one : List String → Option String
only_one [] = none
only_one (a ∷ []) = some a
only_one (a ∷ b ∷ rest) = none

abbrev pub dm_of : Thread → Option String → Option DmThread
dm_of t none = none
dm_of t (some agent) =
    some (record { agent_address = agent; root_message_id = t.root_message_id; ids = t.ids })

abbrev pub add_dm : Option DmThread → List DmThread → List DmThread
add_dm none dms = dms
add_dm (some dm) dms = dm ∷ dms

module _ (runtime : Runtime) where
  abbrev pub found_participants : List String → Option ThreadMessage → List String
  found_participants acc none = acc
  found_participants acc (some m) = add_all acc (participants_of (runtime.normalize) m)

  unfoldable pub thread_participants : Dict ThreadMessage → List String → List String → List String
  thread_participants by_id acc [] = acc
  thread_participants by_id acc (id ∷ ids) =
      thread_participants by_id (found_participants acc (lookup id by_id)) ids

  unfoldable pub direct_thread : List String → List String → Thread → Option DmThread
  direct_thread users members t =
      if any (contains users) members
      then dm_of t (only_one (keep (λ m. not (contains users m)) members))
      else none

  unfoldable pub direct_threads : Dict ThreadMessage → List String → List Thread → List DmThread
  unfolding direct_thread thread_participants
  direct_threads by_id users [] = []
  direct_threads by_id users (t ∷ ts) =
      add_dm (direct_thread users (thread_participants by_id [] t.ids) t)
        (direct_threads by_id users ts)

  abbrev pub users_of : List String → List String
  users_of addresses = add_all [] (map (runtime.normalize) addresses)

  abbrev pub direct_of :
      List ThreadMessage → List String → Option (List Thread) → Option (List DmThread)
  direct_of messages addresses none = none
  direct_of messages addresses (some ts) =
      some (direct_threads (index_messages [] messages) (users_of addresses) ts)

  unfoldable pub derive_dm_threads : ℕ → List ThreadMessage → List String → Option (List DmThread)
  unfolding direct_threads
  derive_dm_threads fuel messages addresses =
      direct_of messages addresses (derive_threads runtime fuel messages)
