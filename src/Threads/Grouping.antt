-- ===== src/Threads/Grouping.antt =====
-- `deriveThreads` of apps/web/src/threads.ts: groups by the root of the chain, merged by list and by
-- subject. The functions of the JavaScript runtime are in the record `Runtime`.
use workbench.Prelude.{
  ℕ, String, ◌==◌, ◌<>◌, Option, none, some, or_else, List, [], ◌∷◌, ◌++◌, add_all, Dict, lookup,
  insert, values, map, if◌then◌else◌,
}
use workbench.Threads.{ThreadMessage, first_some, message_ids, parents, root_of, participants_of}

pub record Runtime : Type 0 where
  pub normalize : String → String  -- `.trim().toLowerCase()`
  pub normalize_subject : String → String  -- `normalizeSubject`, on a regular expression
  pub sorted_json : List String → String  -- `JSON.stringify([…].sort())`

pub record Group : Type 0 where
  pub members : List ThreadMessage
  pub list_id : Option String
  pub subject : Option String

pub record Thread : Type 0 where
  pub key : String
  pub root_message_id : String
  pub ids : List String

abbrev pub joined : Option Group → ThreadMessage → Group
joined none m = record { members = m ∷ []; list_id = m.list_id; subject = m.subject }
joined (some g) m = record {
  members = g.members ++ m ∷ [];
  list_id = first_some g.list_id m.list_id;
  subject = first_some g.subject m.subject;
}

-- The loop over the messages that fills `byRoot`; `none` where the search for a root is out of fuel.
unfoldable pub group_by_root :
    Dict String → ℕ → Dict Group → List ThreadMessage → Option (Dict Group)
group_by_root parent fuel groups [] = some groups
group_by_root parent fuel groups (m ∷ ms) = elim (root_of parent fuel m.message_id) [
  | none ↦ none
  | some root ↦ group_by_root parent fuel (insert root (joined (lookup root groups) m) groups) ms
]

module _ (runtime : Runtime) where
  -- `participantKeyOf`, before the sort
  unfoldable pub group_participants : List String → List ThreadMessage → List String
  group_participants acc [] = acc
  group_participants acc (m ∷ ms) =
      group_participants (add_all acc (participants_of (runtime.normalize) m)) ms

  abbrev pub subject_of : Option String → String
  subject_of none = ""
  subject_of (some s) = (runtime.normalize_subject) s

  abbrev pub subject_key : String → List ThreadMessage → Option String
  subject_key subject members =
      if subject == ""
      then none
      else some (
          "subject:"
          <> subject
          <> "\0participants:"
          <> (runtime.sorted_json) (group_participants [] members))

  -- The key of a group that is merged; `none` of one that stands alone.
  unfoldable pub key_of : Group → Option String
  unfolding group_participants
  key_of g = elim g.list_id [
    | some id ↦ some ("list:" <> id)
    | none ↦ subject_key (subject_of g.subject) g.members
  ]

  abbrev pub merged_group : Option Group → Group → Group
  merged_group none g = g
  merged_group (some existing) g = record existing { members = existing.members ++ g.members }

  abbrev pub place_group : Option String → Group → Dict Group × List Group → Dict Group × List Group
  place_group none g (merged, solo) = (merged, solo ++ g ∷ [])
  place_group (some key) g (merged, solo) =
      (insert key (merged_group (lookup key merged) g) merged, solo)

  unfoldable pub merge_groups : List Group → Dict Group × List Group → Dict Group × List Group
  merge_groups [] acc = acc
  merge_groups (g ∷ gs) acc = merge_groups gs (place_group (key_of g) g acc)

  abbrev pub first_id : List ThreadMessage → Option String
  first_id [] = none
  first_id (m ∷ ms) = some m.message_id

  abbrev pub thread_of : String → Group → Thread
  thread_of key g = record {
    key = if key == "" then "message:" <> or_else (first_id g.members) "undefined" else key;
    root_message_id = or_else (first_id g.members) "";
    ids = message_ids g.members;
  }

  unfoldable pub merged_threads : Dict Group → List Thread
  merged_threads [] = []
  merged_threads ((key, g) ∷ rest) = thread_of key g ∷ merged_threads rest

  unfoldable pub threads_of : Dict Group × List Group → List Thread
  unfolding merged_threads
  threads_of (merged, solo) = merged_threads merged ++ map (thread_of "") solo

  abbrev pub threads_from : Option (Dict Group) → Option (List Thread)
  threads_from none = none
  threads_from (some groups) = some (threads_of (merge_groups (values groups) ([], [])))

  unfoldable pub derive_threads : ℕ → List ThreadMessage → Option (List Thread)
  unfolding group_by_root merge_groups threads_of
  derive_threads fuel messages = threads_from (group_by_root (parents messages) fuel [] messages)
