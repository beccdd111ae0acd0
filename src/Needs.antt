-- ===== src/Needs.antt =====
-- The stores that the web client keeps in the browser (apps/web/src/needs-list.ts): the child tenants
-- and the fork links, each a list of rows under one key. JSON is the parameter `Json`, and
-- `encodeURIComponent` the parameter `encode`.
pub mod Stores
pub mod Fork
pub mod Replay
mod Tests
use workbench.Prelude.{
  ◌<>◌, ◌≡◌, String, ◌==◌, Bool, true, false, not, ◌&&◌, Option, none, some, List, [], ◌∷◌, ◌++◌,
  map, keep, all, lookup, insert, Dict, if◌then◌else◌,
}

pub record ChildTenantRecord : Type 0 where
  pub local_id : String
  pub tenant_id : String
  pub primary_thread_message_id : Option String
  pub icon : Option String
  pub prefs : Option String  -- as its JSON text

pub record ThreadLink : Type 0 where
  pub workbench_local_id : String
  pub message_id : String
  pub in_reply_to : Option String
  pub references : Option (List String)
  pub subject : Option String
  pub to : Option (List String)
  pub body : Option String

-- "string > 0"
abbrev pub is_nonempty : String → Bool
is_nonempty s = not (s == "")

-- "string > 0" of an optional field
abbrev pub is_nonempty? : Option String → Bool
is_nonempty? none = true
is_nonempty? (some s) = is_nonempty s

abbrev pub are_nonempty? : Option (List String) → Bool
are_nonempty? none = true
are_nonempty? (some ss) = all is_nonempty ss

-- `ChildTenantRecordSchema`, of a row with the fields' types
unfoldable pub is_child_tenant : ChildTenantRecord → Bool
is_child_tenant r =
    is_nonempty r.local_id
    && is_nonempty r.tenant_id
    && is_nonempty? r.primary_thread_message_id
    && is_nonempty? r.icon

-- `ThreadLinkSchema`, of a row with the fields' types
unfoldable pub is_thread_link : ThreadLink → Bool
is_thread_link l =
    is_nonempty l.workbench_local_id
    && is_nonempty l.message_id
    && is_nonempty? l.in_reply_to
    && are_nonempty? l.references
    && is_nonempty? l.subject

-- What `JSON.parse` and `Array.isArray` make of a stored text; a row may lack the fields' types.
pub data ParsedRows (Row : Type 0) : Type 0 where
  bad_json : ParsedRows Row
  not_array : ParsedRows Row
  rows : List (Option Row) → ParsedRows Row

-- `JSON.stringify` and `JSON.parse` of lists of rows. What was written reads back.
pub record Json (Row : Type 0) : Type 1 where
  pub Contents : Type 0
  pub stringify : List Row → Contents
  pub parse : Contents → ParsedRows Row
  pub parse-stringify : (rs : List Row) → parse (stringify rs) ≡ rows (map some rs)

-- The browser's storage, of texts
abbrev pub Storage : {Row : Type 0} → Json Row → Type 0
Storage json = Dict (json.Contents)

-- The store of one kind of rows: its schema, and the field by which a row replaces another.
module _ {Row : Type 0} (json : Json Row) (is_valid : Row → Bool) (id_of : Row → String) where
  abbrev pub valid_row : Option Row → List Row → List Row
  valid_row none rest = rest
  valid_row (some r) rest = if is_valid r then r ∷ rest else rest

  unfoldable pub valid_rows : List (Option Row) → List Row
  valid_rows [] = []
  valid_rows (r ∷ rs) = valid_row r (valid_rows rs)

  abbrev pub parsed_rows : ParsedRows Row → List Row
  parsed_rows bad_json = []
  parsed_rows not_array = []
  parsed_rows (rows rs) = valid_rows rs

  abbrev pub raw_rows : Option (json.Contents) → List Row
  raw_rows none = []
  raw_rows (some raw) = parsed_rows (json.parse raw)

  unfoldable pub stored_rows : String → Storage json → List Row
  unfolding valid_rows
  stored_rows key storage = raw_rows (lookup key storage)

  unfoldable pub record_row : String → Row → Storage json → Storage json
  unfolding stored_rows
  record_row key r storage =
      let kept = keep (λ row. not (id_of row == id_of r)) (stored_rows key storage) in
      insert key (json.stringify (kept ++ r ∷ [])) storage

module _ (encode : String → String) where
  abbrev pub child_tenants_key : String → String → String
  child_tenants_key hub_scope account_id =
      "workbench.child-tenants:" <> encode hub_scope <> ":" <> encode account_id

  abbrev pub thread_links_key : String → String → String
  thread_links_key hub_scope account_id =
      "workbench.thread-links:" <> encode hub_scope <> ":" <> encode account_id

module _ (json : Json ChildTenantRecord) where
  unfoldable pub load_child_tenants : String → Storage json → List ChildTenantRecord
  load_child_tenants key storage = stored_rows json is_child_tenant (λ r. r.local_id) key storage

  unfoldable pub record_child_tenant : String → ChildTenantRecord → Storage json → Storage json
  record_child_tenant key r storage =
      record_row json is_child_tenant (λ x. x.local_id) key r storage

module _ (json : Json ThreadLink) where
  unfoldable pub load_thread_links : String → Storage json → List ThreadLink
  load_thread_links key storage = stored_rows json is_thread_link (λ l. l.message_id) key storage

  unfoldable pub record_thread_link : String → ThreadLink → Storage json → Storage json
  record_thread_link key l storage =
      record_row json is_thread_link (λ x. x.message_id) key l storage
