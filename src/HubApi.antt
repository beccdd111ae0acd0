-- ===== src/HubApi.antt =====
-- The requests of the web client that set up what an agent reaches. What the hub replies to a request is a
-- parameter, given the requests before; the calls made so far are the state.
pub mod Credential
pub mod McpServers
use workbench.Prelude.{
  ℕ, ◌≡◌, refl, sym, ap, ◌∙◌, ◌⊎◌, inl, inr, String, ◌<>◌, Bool, true, false, Option, none, some,
  List, [], ◌∷◌, ◌++◌, Bool-cases, if◌then◌else◌,
}
use workbench.Prelude.Action.{
  Attempt, done, thrown, Action, pure, throw, resume, ◌>>=◌, ◌>>◌, bind-done,
}
use workbench.Hub.{Reply, unreachable, replied, is_ok}

pub record Call (I : Type 0) : Type 0 where
  pub method : String
  pub address : String
  pub input : I

-- What is thrown: what failed, what came back in another shape, and what `fetch` and `json()` throw
pub data ApiError : Type 0 where
  failed : String → ApiError
  refused : String → Bool → ApiError  -- a message of the hub's, and `needsBearer`
  malformed : String → ApiError
  fetch_error : Option String → ApiError
  json_error : ApiError

abbrev pub Api : Type 0 → Type 0 → Type 0
Api I A = Action (List (Call I)) ApiError A

module _ (encode : String → String) where
  -- `tenantPath`
  abbrev pub tenant_path : String → String → String
  tenant_path tenant_id suffix = "/api/tenants/" <> encode tenant_id <> suffix

module _ {I Body : Type 0} (hub : List (Call I) → Call I → Reply Body) where
  abbrev pub replied_with : Reply Body → Api I (ℕ × Option Body)
  replied_with (unreachable cause) = throw (fetch_error cause)
  replied_with (replied status body) = pure (status, body)

  unfoldable pub fetch_hub : Call I → Api I (ℕ × Option Body)
  fetch_hub call calls = replied_with (hub calls call) (calls ++ call ∷ [])

  abbrev pub shape_or_throw : {A : Type 0} → String → Option A → Api I A
  shape_or_throw what none = throw (malformed what)
  shape_or_throw what (some a) = pure a

  -- `readJson`
  unfoldable pub read_json : {A : Type 0} → String → (Body → Option A) → Option Body → Api I A
  read_json what shape none = throw json_error
  read_json what shape (some body) = shape_or_throw what (shape body)

  -- A response that is not `ok` is thrown, and another one is read.
  unfoldable pub ok_json :
      {A : Type 0} → String → String → (Body → Option A) → ℕ × Option Body → Api I A
  unfolding read_json
  ok_json what thing shape r = if is_ok r.0 then read_json thing shape r.1 else throw (failed what)

  unfoldable pub request_json :
      {A : Type 0} → Call I → String → String → (Body → Option A) → Api I A
  unfolding fetch_hub ok_json
  request_json call what thing shape = fetch_hub call >>= ok_json what thing shape

  -- A response of such a status is thrown, and no other is read.
  unfoldable pub request_unless : (ℕ → Bool) → Call I → String → Api I (Unit {0})
  unfolding fetch_hub
  request_unless refuses call what =
      fetch_hub call >>= (λ r. if refuses r.0 then throw (failed what) else pure tt)

  -- The hub answered the call, with a status that is as said.
  abbrev pub Answered : (ℕ → Type 0) → List (Call I) → Call I → Type 0
  Answered P calls call =
      (status : ℕ) × (body : Option Body) × (hub calls call ≡ replied status body) × P status

  -- The hub's answer to a call that was read: `ok`, and of the shape
  pub record Gave {A : Type 0} (shape : Body → Option A) (calls : List (Call I)) (call : Call I)
      (a : A) : Type 0 where
    pub status : ℕ
    pub body : Body
    pub reply : hub calls call ≡ replied status (some body)
    pub accepted : is_ok status ≡ true
    pub shaped : shape body ≡ some a

  replied_with-done :
      (reply : Reply Body) (calls : List (Call I)) {r : ℕ × Option Body} {after : List (Call I)}
      → replied_with reply calls ≡ (done r, after)
      → (reply ≡ replied r.0 r.1) × (after ≡ calls)
  replied_with-done (unreachable cause) calls h = absurd cc
  replied_with-done (replied status body) calls {r} h =
      let e : ◌≡◌ {A = ℕ × Option Body} (status, body) r = cc in
      (ap (λ (p : ℕ × Option Body). replied p.0 p.1) e, cc)

  pub fetch_hub-done :
      (call : Call I) (calls : List (Call I)) {r : ℕ × Option Body} {after : List (Call I)}
      → fetch_hub call calls ≡ (done r, after)
      → (hub calls call ≡ replied r.0 r.1) × (after ≡ calls ++ call ∷ [])
  unfolding fetch_hub
  fetch_hub-done call calls h = replied_with-done (hub calls call) _ h

  replied_with-cases :
      (reply : Reply Body) (calls : List (Call I))
      → ((cause : Option String) × (reply ≡ unreachable cause)
          × (replied_with reply calls ≡ (thrown (fetch_error cause), calls)))
        ⊎ ((status : ℕ) × (body : Option Body) × (reply ≡ replied status body)
            × (replied_with reply calls ≡ (done (status, body), calls)))
  replied_with-cases (unreachable cause) calls = inl (cause, refl, refl)
  replied_with-cases (replied status body) calls = inr (status, body, refl, refl)

  -- Whatever comes of it, a request is one call.
  pub fetch_hub-cases :
      (call : Call I) (calls : List (Call I))
      → ((cause : Option String) × (hub calls call ≡ unreachable cause)
          × (fetch_hub call calls ≡ (thrown (fetch_error cause), calls ++ call ∷ [])))
        ⊎ ((status : ℕ) × (body : Option Body) × (hub calls call ≡ replied status body)
            × (fetch_hub call calls ≡ (done (status, body), calls ++ call ∷ [])))
  unfolding fetch_hub
  fetch_hub-cases call calls = replied_with-cases (hub calls call) (calls ++ call ∷ [])

  shape_or_throw-calls :
      {A : Type 0} (what : String) (shaped : Option A) (calls : List (Call I))
      → (shape_or_throw what shaped calls).1 ≡ calls
  shape_or_throw-calls what none calls = refl
  shape_or_throw-calls what (some a) calls = refl

  pub read_json-calls :
      {A : Type 0} (what : String) (shape : Body → Option A) (found : Option Body)
      (calls : List (Call I))
      → (read_json what shape found calls).1 ≡ calls
  unfolding read_json
  read_json-calls what shape none calls = refl
  read_json-calls what shape (some body) calls = shape_or_throw-calls what (shape body) calls

  shape_or_throw-done :
      {A : Type 0} (what : String) (shaped : Option A) (calls : List (Call I)) {a : A}
      {after : List (Call I)}
      → shape_or_throw what shaped calls ≡ (done a, after)
      → (shaped ≡ some a) × (after ≡ calls)
  shape_or_throw-done what none calls h = absurd cc
  shape_or_throw-done what (some b) calls h = (cc, cc)

  ok_json-done :
      {A : Type 0} (what thing : String) (shape : Body → Option A) (status : ℕ)
      (found : Option Body) (calls : List (Call I)) {a : A} {after : List (Call I)}
      → ok_json what thing shape (status, found) calls ≡ (done a, after)
      → (body : Body) × (found ≡ some body)
        × (is_ok status ≡ true)
        × (shape body ≡ some a)
        × (after ≡ calls)
  unfolding ok_json
  ok_json-done what thing shape status none calls h = elim (Bool-cases (is_ok status)) [
    | inl ok ↦ absurd (cc (rw ok at h))
    | inr no_ok ↦ absurd (cc (rw no_ok at h))
  ]
  ok_json-done what thing shape status (some body) calls h = elim (Bool-cases (is_ok status)) [
    | inl ok ↦
        let (e, same) = shape_or_throw-done thing (shape body) calls (rw ok at h) in
        (body, refl, ok, e, same)
    | inr no_ok ↦ absurd (cc (rw no_ok at h))
  ]

  -- A request that returned was answered.
  pub request_json-Gave :
      {A : Type 0} (call : Call I) (what thing : String) (shape : Body → Option A)
      (calls : List (Call I)) {a : A} {after : List (Call I)}
      → request_json call what thing shape calls ≡ (done a, after)
      → Gave shape calls call a × (after ≡ calls ++ call ∷ [])
  unfolding request_json
  request_json-Gave call what thing shape calls h =
      let (r, t, fetched, read) = bind-done (fetch_hub call) (ok_json what thing shape) calls h in
      let (reply, e) = fetch_hub-done call calls fetched in
      let (body, found, ok, shaped, same) = ok_json-done what thing shape r.0 r.1 t read in
      (
        record {
          status = r.0;
          body = body;
          reply = reply ∙ ap (replied r.0) found;
          accepted = ok;
          shaped = shaped;
        },
        same ∙ e,
      )

  pub request_unless-done :
      (refuses : ℕ → Bool) (call : Call I) (what : String) (calls : List (Call I))
      {after : List (Call I)}
      → request_unless refuses call what calls ≡ (done tt, after)
      → Answered (λ status. refuses status ≡ false) calls call × (after ≡ calls ++ call ∷ [])
  unfolding request_unless
  request_unless-done refuses call what calls {after} h =
      let (r, t, fetched, rest) =
        bind-done (fetch_hub call) (λ r. if refuses r.0 then throw (failed what) else pure tt) calls
          h in
      let (reply, e) = fetch_hub-done call calls fetched in
      elim (Bool-cases (refuses r.0)) [
        | inl bad ↦ absurd (cc (rw bad at rest))
        | inr good ↦
            let same : t ≡ after = cc (rw good at rest) in ((r.0, r.1, reply, good), sym same ∙ e)
      ]
