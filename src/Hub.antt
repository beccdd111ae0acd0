-- ===== src/Hub.antt =====
-- The web client's requests to the hub and its paged lists (apps/web/src/needs-converge.ts). `fetch` is
-- a parameter: what the hub replies to a request. The schemas are parameters too: what they read from
-- a body, if it has their shape.
pub mod Pages
mod Routes
pub mod Roles
pub mod Assignment
mod Agents
mod Requested
mod Tests
use workbench.Prelude.{
  ℕ, zero, suc, String, ◌==◌, ◌<>◌, Bool, true, false, not, ◌&&◌, Option, none, some, List, [], ◌∷◌,
  ◌++◌, find, keep, any, ltb, leb, nat_eq, if◌then◌else◌,
}
use workbench.Prelude.Action.{Attempt, done, thrown}

pub record Request : Type 0 where
  pub post : Bool
  pub path : String
  pub body : Option String

-- The hub's reply: a network failure with its message, if it is an `Error`, or a status with the
-- body, if that is JSON.
pub data Reply (Body : Type 0) : Type 0 where
  unreachable : Option String → Reply Body
  replied : ℕ → Option Body → Reply Body

-- `response.ok`
abbrev pub is_ok : ℕ → Bool
is_ok status = leb 200 status && ltb status 300

pub record Page (A : Type 0) : Type 0 where
  pub items : List A
  pub next_cursor : Option String

-- The loop over the pages, from a cursor on and with the rows before it. `none` is out of fuel.
module _ {E A : Type 0} (page_at : Option String → Attempt E (Page A)) where
  unfoldable pub collect_pages : ℕ → Option String → List A → Option (Attempt E (List A))
  collect_pages zero cursor rows = none
  collect_pages (suc fuel) cursor rows = elim (page_at cursor) [
    | thrown e ↦ some (thrown e)
    | done page ↦ elim page.next_cursor [
      | none ↦ some (done (rows ++ page.items))
      | some next ↦ collect_pages fuel (some next) (rows ++ page.items)
    ]
  ]

-- `StockHubRequestError` with its operation and status, or another error.
pub data HubError : Type 0 where
  request_failed : String → Option ℕ → HubError
  fetch_failed : Option String → HubError
  bad_json : HubError

unfoldable pub parse_boundary : {T : Type 0} → String → Option T → Attempt HubError T
parse_boundary operation none = thrown (request_failed operation none)
parse_boundary operation (some t) = done t

abbrev pub get : String → Request
get path = record { post = false; path = path; body = none }

module _ (encode : String → String) where
  abbrev pub page_path : String → Option String → String
  page_path base none = base <> "?limit=100"
  page_path base (some cursor) = base <> "?limit=100&cursor=" <> encode cursor

  abbrev pub tenant_path : String → String → String
  tenant_path tenant suffix = "/api/tenants/" <> encode tenant <> suffix

module _ {Body : Type 0} where
  abbrev pub ok_body : Option Body → Attempt HubError Body
  ok_body none = thrown bad_json
  ok_body (some b) = done b

  -- `readJson(await fetchImpl(…), operation)`
  unfoldable pub read_json : String → Reply Body → Attempt HubError Body
  read_json operation (unreachable cause) = thrown (fetch_failed cause)
  read_json operation (replied status body) =
      if is_ok status then ok_body body else thrown (request_failed operation (some status))

  abbrev pub then_parse :
      {T : Type 0} → String → (Body → Option T) → Attempt HubError Body → Attempt HubError T
  then_parse operation schema (thrown e) = thrown e
  then_parse operation schema (done b) = parse_boundary operation (schema b)

  module _ (fetch : Request → Reply Body) (encode : String → String) where
    unfoldable pub fetch_page :
        {A : Type 0}
        → String
        → String
        → (Body → Option (Page A))
        → Option String
        → Attempt HubError (Page A)
    unfolding read_json parse_boundary
    fetch_page base operation schema cursor =
        then_parse operation schema
          (read_json operation (fetch (get (page_path encode base cursor))))

    unfoldable pub fetch_all_pages :
        {A : Type 0}
        → ℕ
        → String
        → String
        → (Body → Option (Page A))
        → Option (Attempt HubError (List A))
    unfolding collect_pages fetch_page
    fetch_all_pages fuel base operation schema =
        collect_pages (fetch_page base operation schema) fuel none []
