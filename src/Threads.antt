-- ===== src/Threads.antt =====
-- The mail threads of apps/web/src/threads.ts. Here are the chains of replies: the parent and the root of a message, the
-- participants of a message, and the headers of a fork. The loop of `rootOf` runs on fuel and gives
-- `none` where it has not ended by then. `trim` and `toLowerCase` are the parameter `normalize`.
pub mod Roots
pub mod Grouping
pub mod Partition
pub mod Direct
mod Participants
mod WithAgent
mod Tests
use workbench.Prelude.{
  ℕ, zero, suc, String, ◌==◌, Bool, true, false, not, Option, none, some, or_else, List, [], ◌∷◌,
  ◌++◌, contains, add, add_all, Dict, lookup, insert, if◌then◌else◌,
}

pub record ThreadMessage : Type 0 where
  pub message_id : String
  pub from : String
  pub to : List String
  pub cc : Option (List String)
  pub subject : Option String
  pub list_id : Option String
  pub in_reply_to : Option String
  pub references : Option (List String)

abbrev pub if_known : List String → Option String → Option String
if_known known none = none
if_known known (some id) = if contains known id then some id else none

abbrev pub first_some : Option String → Option String → Option String
first_some none o = o
first_some (some id) o = some id

-- The loop over the references, from the last one.
unfoldable pub last_known : List String → List String → Option String
last_known known [] = none
last_known known (r ∷ rs) = first_some (last_known known rs) (if_known known (some r))

unfoldable pub parent_id_of : ThreadMessage → List String → Option String
unfolding last_known
parent_id_of m known =
    first_some (if_known known m.in_reply_to) (last_known known (or_else m.references []))

abbrev pub insert_parent : String → Option String → Dict String → Dict String
insert_parent id none parent = parent
insert_parent id (some p) parent = insert id p parent

abbrev pub message_ids : List ThreadMessage → List String
message_ids [] = []
message_ids (m ∷ ms) = m.message_id ∷ message_ids ms

unfoldable pub parents_from : List String → Dict String → List ThreadMessage → Dict String
parents_from known parent [] = parent
parents_from known parent (m ∷ ms) =
    parents_from known (insert_parent m.message_id (parent_id_of m known) parent) ms

-- The map `parent` of `deriveThreads`.
unfoldable pub parents : List ThreadMessage → Dict String
unfolding parents_from
parents messages = parents_from (add_all [] (message_ids messages)) [] messages

-- `rootOf`
unfoldable pub root_of : Dict String → ℕ → String → Option String
root_of parent zero current = none
root_of parent (suc fuel) current = elim (lookup current parent) [
  | none ↦ some current
  | some next ↦ root_of parent fuel next
]

unfoldable pub last : List String → Option String
last [] = none
last (x ∷ []) = some x
last (x ∷ y ∷ xs) = last (y ∷ xs)

abbrev pub is_text : Option String → String → Bool
is_text none s = false
is_text (some t) s = t == s

pub record ForkReference : Type 0 where
  pub in_reply_to : String
  pub references : List String

unfoldable pub build_fork_reference : String → Option (List String) → ForkReference
unfolding last
build_fork_reference message_id references =
    let ancestry = or_else references [] in
    record {
      in_reply_to = message_id;
      references =
          if not (is_text (last ancestry) message_id)
          then ancestry ++ message_id ∷ []
          else ancestry;
    }

unfoldable pub is_duplicate_message_id : List String → String → Bool
is_duplicate_message_id seen id = contains seen id

module _ (normalize : String → String) where
  unfoldable pub add_normalized : List String → List String → List String
  add_normalized members [] = members
  add_normalized members (a ∷ rest) = add_normalized (add members (normalize a)) rest

  unfoldable pub participants_of : ThreadMessage → List String
  unfolding add_normalized
  participants_of m = add_normalized (add [] (normalize m.from)) (m.to ++ or_else m.cc [])
