-- ===== src/Install/Replies.antt =====
-- What a request that was answered as expected says.
use workbench.Prelude.{
  ℕ, ◌≡◌, refl, ap, ◌∙◌, inl, inr, String, Option, none, some, [], ◌∷◌, ◌++◌, Bool-cases,
  Option-cases,
}
use workbench.Prelude.Action.{Attempt, done, bind-done}
use workbench.Hub.{Reply, unreachable, replied, is_ok}
use workbench.Install.{
  RequestInput, InstallError, HubCalls, InstallPackageArgs, Services, replied_with, fetch_hub,
  parse_reply, ok_reply, request_ok,
}

pub returned_eq :
    {A : Type 0} {a b : A} {t u : HubCalls}
    → ◌≡◌ {A = Attempt InstallError A × HubCalls} (done a, t) (done b, u)
    → (a ≡ b) × (t ≡ u)
returned_eq h = (cc, cc)

module _ {Body : Type 0} (services : Services Body) (args : InstallPackageArgs) where
  fetched :
      (reply : Reply Body) {calls after : HubCalls} {r : ℕ × Option Body}
      → replied_with services args reply calls ≡ (done r, after)
      → (reply ≡ replied r.0 r.1) × (after ≡ calls)
  fetched (unreachable cause) h = absurd cc
  fetched (replied status body) h = (cc, cc)

  fetch_hub-done :
      (method address : String) (input : RequestInput) {calls after : HubCalls}
      {r : ℕ × Option Body}
      → fetch_hub services args method address input calls ≡ (done r, after)
      → ((services.hub) calls (record { method = method; address = address; input = input })
          ≡ replied r.0 r.1)
        × (after ≡ calls ++ record { method = method; address = address; input = input } ∷ [])
  unfolding fetch_hub
  fetch_hub-done method address input {calls} h = fetched _ h

  ok_reply-done :
      {A : Type 0} (what thing : String) (shape : Body → Option A) (r : ℕ × Option Body)
      {calls after : HubCalls} {a : A}
      → ok_reply services args what thing shape r calls ≡ (done a, after)
      → (body : Body) × (r.1 ≡ some body) × (shape body ≡ some a) × (after ≡ calls)
  unfolding ok_reply parse_reply
  ok_reply-done what thing shape (status, none) h = elim (Bool-cases (is_ok status)) [
    | inl e ↦ absurd (cc (rw (e) at h))
    | inr e ↦ absurd (cc (rw (e) at h))
  ]
  ok_reply-done what thing shape (status, some body) h = elim (Bool-cases (is_ok status)) [
    | inl e ↦ elim (Option-cases (shape body)) [
      | inl f ↦ absurd (cc (rw (f) at (rw (e) at h)))
      | inr (a, f) ↦ let h' = rw (f) at (rw (e) at h) in (body, refl, f ∙ cc, cc)
    ]
    | inr e ↦ absurd (cc (rw (e) at h))
  ]

  pub request_ok-done :
      {A : Type 0} (method address : String) (input : RequestInput) (what thing : String)
      (shape : Body → Option A) (calls : HubCalls) {after : HubCalls} {a : A}
      → request_ok services args method address input what thing shape calls ≡ (done a, after)
      → (status : ℕ) × (body : Body) × ((services.hub) calls
            (record { method = method; address = address; input = input })
          ≡ replied status (some body))
        × (shape body ≡ some a)
        × (after ≡ calls ++ record { method = method; address = address; input = input } ∷ [])
  unfolding request_ok
  request_ok-done method address input what thing shape calls h =
      let ((status, found), t, e, parsed) =
        bind-done (fetch_hub services args method address input)
          (ok_reply services args what thing shape) calls h in
      let (replied_as, after_fetch) = fetch_hub-done method address input e in
      let (body, f, g, after_parse) = ok_reply-done what thing shape (status, found) parsed in
      (status, body, replied_as ∙ ap (replied status) f, g, after_parse ∙ after_fetch)
