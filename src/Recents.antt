-- ===== src/Recents.antt =====
-- The recent entries of the command palette (apps/web/src/command-palette/recents.ts), kept in the
-- browser's storage. JSON is the parameter `Json`; a write that throws is the parameter `writable`.
pub mod Pushed
mod Tests
use workbench.Needs.{Json, Storage, ParsedRows, bad_json, not_array, rows}
use workbench.Prelude.{
  ℕ, String, ◌==◌, ◌<>◌, Bool, true, false, not, Option, none, some, List, [], ◌∷◌, keep, take,
  lookup, insert, if◌then◌else◌,
}

pub record RecentEntry : Type 0 where
  pub kind : String
  pub id : String
  pub title : String
  pub subtitle : Option String

abbrev pub max_recents : ℕ
max_recents = 5

abbrev pub recent_key : RecentEntry → String
recent_key entry = entry.kind <> ":" <> entry.id

-- The entries of another key.
abbrev pub without_entry : RecentEntry → List RecentEntry → List RecentEntry
without_entry entry entries =
    keep (λ existing. not (recent_key existing == recent_key entry)) entries

unfoldable pub add_recent_entry : ℕ → List RecentEntry → RecentEntry → List RecentEntry
add_recent_entry max entries entry = take max (entry ∷ without_entry entry entries)

unfoldable pub remove_recent_entry : List RecentEntry → RecentEntry → List RecentEntry
remove_recent_entry entries entry = without_entry entry entries

-- The rows that have the shape of an entry.
unfoldable pub recent_rows : List (Option RecentEntry) → List RecentEntry
recent_rows [] = []
recent_rows (none ∷ rest) = recent_rows rest
recent_rows (some entry ∷ rest) = entry ∷ recent_rows rest

abbrev pub parsed_recents : ParsedRows RecentEntry → List RecentEntry
parsed_recents bad_json = []
parsed_recents not_array = []
parsed_recents (rows rs) = recent_rows rs

module _ (json : Json RecentEntry) (key : String) (max : ℕ) where
  abbrev pub raw_recents : Option (json.Contents) → List RecentEntry
  raw_recents none = []
  raw_recents (some raw) = take max (parsed_recents (json.parse raw))

  unfoldable pub load_recents : Storage json → List RecentEntry
  unfolding recent_rows
  load_recents storage = raw_recents (lookup key storage)

  -- The write, which is lost where the storage refuses it.
  abbrev pub write_recents : Bool → List RecentEntry → Storage json → Storage json
  write_recents true next storage = insert key (json.stringify next) storage
  write_recents false next storage = storage

  unfoldable pub push_recent : Bool → RecentEntry → Storage json → List RecentEntry × Storage json
  unfolding load_recents add_recent_entry
  push_recent writable entry storage =
      let next = add_recent_entry max (load_recents storage) entry in
      (next, write_recents writable next storage)

  unfoldable pub remove_recent : Bool → RecentEntry → Storage json → List RecentEntry × Storage json
  unfolding load_recents remove_recent_entry
  remove_recent writable entry storage =
      let next = remove_recent_entry (load_recents storage) entry in
      (next, write_recents writable next storage)
