-- ===== src/Inference/Candidates.antt =====
-- The candidates for a provider's default model are the offerings of the provider that can complete a
-- chat (apps/web/src/settings/inference/effective-list.ts).
use workbench.Prelude.{
  Member-append, Member-keep, subst, ◌↔◌, Member, contains, ◌≡◌, refl, sym, ap, ◌∙◌, ◌⊎◌, inl, inr,
  String, ◌==◌, eq_iff, true, false, List, [], ◌∷◌, arith, Bool-cases,
}
use workbench.Inference.{
  candidate_of, model_candidates, is_gguf_or_hub_path, Names, ModelInfo, Offering, Candidate,
  candidates, prefer_completion_capable, is_completion_capable,
}

-- The name is no path of a file or of a hub, and the capabilities have plain text, or there are none and
-- the name is not that of an embedding.
abbrev pub CanComplete : Names → List String → String → Type 0
CanComplete js capabilities name =
    (is_gguf_or_hub_path js name ≡ false)
    × (((capabilities ≡ []) × (js.embedding name ≡ false))
        ⊎ (contains capabilities "plain-text" ≡ true))

CanComplete-capable :
    (js : Names) (capabilities : List String) (name : String)
    → (is_completion_capable js capabilities name ≡ true) ↔ CanComplete js capabilities name
unfolding is_completion_capable contains
CanComplete-capable js [] name = (
  λ h. (ground (arith, h), inl (refl, ground (arith, h))),
  λ (path, can). elim can [ inl (e, f) ↦ ground (arith, path, f) | inr e ↦ absurd (cc) ],
)
CanComplete-capable js (c ∷ cs) name = (
  λ h. (ground (arith, h), inr (ground (arith, h))),
  λ (path, can). elim can [ inl (e, f) ↦ absurd (cc) | inr e ↦ ground (arith, path, e) ],
)

-- A model of the list has an offering of the provider that can complete a chat, and the candidate is made
-- of the two.
pub record IsOffered (js : Names) (provider : String) (models : List ModelInfo) (x : Candidate)
    : Type 0 where
  pub model : ModelInfo
  pub offering : Offering
  pub of_models : Member model models
  pub of_model_offerings : Member offering model.offerings
  pub of_provider : offering.provider_name ≡ provider
  pub can_complete : CanComplete js offering.capabilities model.canonical_name
  pub is_made_of : x ≡ record {
    canonical_name = model.canonical_name;
    display_name = model.display_name;
    priority = offering.priority;
    capabilities = offering.capabilities;
  }

model_candidates-from :
    (provider : String) (m : ModelInfo) (os : List Offering) (x : Candidate)
    → Member x (model_candidates provider m os)
    → (o : Offering) × Member o os × (o.provider_name ≡ provider) × (x ≡ candidate_of m o)
unfolding model_candidates
model_candidates-from provider m [] x h = absurd h
model_candidates-from provider m (o ∷ os) x h = elim (Bool-cases (o.provider_name == provider)) [
  | inr other ↦
      let (o', mem, same, e) = model_candidates-from provider m os x (rw other at h) in
      (o', inr mem, same, e)
  | inl same ↦
      let h' : (x ≡ candidate_of m o) ⊎ Member x (model_candidates provider m os) = rw same at h in
      elim h' [
        | inl e ↦ (o, inl refl, (eq_iff o.provider_name provider).0 same, e)
        | inr later ↦
            let (o', mem, same', e) = model_candidates-from provider m os x later in
            (o', inr mem, same', e)
      ]
]

model_candidates-has :
    (provider : String) (m : ModelInfo) (os : List Offering) (o : Offering)
    → Member o os
    → o.provider_name ≡ provider
    → Member (candidate_of m o) (model_candidates provider m os)
unfolding model_candidates
model_candidates-has provider m [] o h same = absurd h
model_candidates-has provider m (p ∷ os) o (inl e) same =
    rw ((eq_iff p.provider_name provider).1 (ap (λ (r : Offering). r.provider_name) (sym e) ∙ same))
      (inl (ap (candidate_of m) e))
model_candidates-has provider m (p ∷ os) o (inr h) same =
    let rest = model_candidates-has provider m os o h same in
    elim (Bool-cases (p.provider_name == provider)) [
      | inl mine ↦ rw mine (inr rest)
      | inr other ↦ rw other rest
    ]

candidates-from :
    (provider : String) (ms : List ModelInfo) (x : Candidate)
    → Member x (candidates provider ms)
    → (m : ModelInfo) × (o : Offering) × Member m ms
      × Member o m.offerings
      × (o.provider_name ≡ provider)
      × (x ≡ candidate_of m o)
unfolding candidates
candidates-from provider [] x h = absurd h
candidates-from provider (m ∷ ms) x h =
    elim ((Member-append x (model_candidates provider m m.offerings) (candidates provider ms)).0
      h) [
        | inl here ↦
            let (o, mem, same, e) = model_candidates-from provider m m.offerings x here in
            (m, o, inl refl, mem, same, e)
        | inr later ↦
            let (m', o, mem, mem', same, e) = candidates-from provider ms x later in
            (m', o, inr mem, mem', same, e)
      ]

candidates-has :
    (provider : String) (ms : List ModelInfo) (m : ModelInfo) (o : Offering)
    → Member m ms
    → Member o m.offerings
    → o.provider_name ≡ provider
    → Member (candidate_of m o) (candidates provider ms)
unfolding candidates
candidates-has provider [] m o h k same = absurd h
candidates-has provider (m' ∷ ms) m o (inl e) k same =
    (Member-append _ (model_candidates provider m' m'.offerings) (candidates provider ms)).1 (
      inl (
        subst (λ n. Member (candidate_of m o) (model_candidates provider n n.offerings)) e
          (model_candidates-has provider m m.offerings o k same)))
candidates-has provider (m' ∷ ms) m o (inr h) k same =
    (Member-append _ (model_candidates provider m' m'.offerings) (candidates provider ms)).1
      (inr (candidates-has provider ms m o h k same))

-- The candidates that the choice of a provider's default model looks at.
abbrev pub capable : Names → List ModelInfo → String → List Candidate
capable js models provider =
    prefer_completion_capable js (candidates provider models) (λ c. c.capabilities)
      (λ c. c.canonical_name)

pub capable-IsOffered :
    (js : Names) (models : List ModelInfo) (provider : String) (x : Candidate)
    → Member x (capable js models provider) ↔ IsOffered js provider models x
unfolding prefer_completion_capable
capable-IsOffered js models provider x = (
  λ h.
      let (mem, can) = (Member-keep _ x (candidates provider models)).0 h in
      let (m, o, of_models, of_offerings, same, e) = candidates-from provider models x mem in
      record {
        model = m;
        offering = o;
        of_models = of_models;
        of_model_offerings = of_offerings;
        of_provider = same;
        can_complete = (CanComplete-capable js o.capabilities m.canonical_name).0 (
            ap (λ (c : Candidate). is_completion_capable js c.capabilities c.canonical_name) (sym e)
            ∙ can);
        is_made_of = e;
      },
  λ h. (Member-keep _ x (candidates provider models)).1 (
    subst (λ c. Member c (candidates provider models)) (sym h.is_made_of)
        (candidates-has provider models h.model h.offering h.of_models h.of_model_offerings
          h.of_provider),
    ap (λ (c : Candidate). is_completion_capable js c.capabilities c.canonical_name) h.is_made_of
        ∙ (CanComplete-capable js (h.offering).capabilities (h.model).canonical_name).1
            h.can_complete,
  ),
)
