-- ===== src/WorkerStatus/Ranks.antt =====
-- Which of the benches' offers is shown.
use workbench.Prelude.{
  ℕ, ◌≡◌, refl, sym, ap, ◌∙◌, ◌+◌, ◌≤◌, inl, inr, String, ◌==◌, eq_iff, Bool, true, false, not,
  ◌&&◌, Option, none, some, or_else, List, [], ◌∷◌, any, ltb, All, subst, arith, if◌then◌else◌,
  Bool-cases,
}
use workbench.WorkerStatus.{
  Status, Bench, Agent, rank, offer, live_status, turn_status, turn_answered, parked_on_ask,
  agent_status, offer_bench, offer_benches, bench_worker_status, pending_turn_timeout,
}

-- What the folded offers come to, from a first one.
unfoldable top : Status → List Status → Status
top b [] = b
top b (s ∷ ss) = let chosen = if ltb (rank b.text) (rank s.text) then s else b in top chosen ss

unfoldable offer_all : Option Status → List Status → Option Status
offer_all best [] = best
offer_all best (s ∷ ss) = offer_all (offer best s) ss

offer_all-top : (b : Status) (ss : List Status) → offer_all (some b) ss ≡ some (top b ss)
unfolding offer_all top offer
offer_all-top b [] = refl
offer_all-top b (s ∷ ss) = elim (Bool-cases (ltb (rank b.text) (rank s.text))) [
  | inl higher ↦ rw higher (offer_all-top s ss)
  | inr lower ↦ rw lower (offer_all-top b ss)
]

AllBelow : ℕ → List Status → Type 0
AllBelow n ss = All (λ s. rank s.text ≤ n) ss

top_higher :
    (b s : Status) (ss : List Status)
    → ltb (rank b.text) (rank s.text) ≡ true
    → top b (s ∷ ss) ≡ top s ss
unfolding top
top_higher b s ss h = ap (λ c. top (if c then s else b) ss) h

top_lower :
    (b s : Status) (ss : List Status)
    → ltb (rank b.text) (rank s.text) ≡ false
    → top b (s ∷ ss) ≡ top b ss
unfolding top
top_lower b s ss h = ap (λ c. top (if c then s else b) ss) h

top-AllBelow : (b : Status) (ss : List Status) → AllBelow (rank (top b ss).text) (b ∷ ss)
unfolding AllBelow top
top-AllBelow b [] = (omega arith, tt)
top-AllBelow b (s ∷ ss) = elim (Bool-cases (ltb (rank b.text) (rank s.text))) [
  | inl higher ↦
      let (a, k) = top-AllBelow s ss in
      subst (λ (x : Status). AllBelow (rank x.text) (b ∷ s ∷ ss)) (sym (top_higher b s ss higher))
        (ground arith, (a, k))
  | inr lower ↦
      let (a, k) = top-AllBelow b ss in
      subst (λ (x : Status). AllBelow (rank x.text) (b ∷ s ∷ ss)) (sym (top_lower b s ss lower))
        (a, (ground arith, k))
]

top_within :
    (n : ℕ) (b : Status) (ss : List Status) → AllBelow n (b ∷ ss) → rank (top b ss).text ≤ n
unfolding AllBelow top
top_within n b [] h = h.0
top_within n b (s ∷ ss) (a, (k, r)) = elim (Bool-cases (ltb (rank b.text) (rank s.text))) [
  | inl higher ↦
      subst (λ (x : Status). rank x.text ≤ n) (sym (top_higher b s ss higher))
        (top_within n s ss (k, r))
  | inr lower ↦
      subst (λ (x : Status). rank x.text ≤ n) (sym (top_lower b s ss lower))
        (top_within n b ss (a, r))
]

abbrev pub has_text : String → List Status → Bool
has_text text ss = any (λ s. s.text == text) ss

rank_of_text :
    (n : ℕ) (ss : List Status) (text : String)
    → AllBelow n ss
    → has_text text ss ≡ true
    → rank text ≤ n
unfolding AllBelow
rank_of_text n [] text h k = cc
rank_of_text n (s ∷ ss) text (a, r) k = elim (Bool-cases (s.text == text)) [
  | inl same ↦ subst (λ t. rank t ≤ n) ((eq_iff s.text text).0 same) a
  | inr other ↦ rank_of_text n ss text r (ground arith)
]

rank_three : (text : String) → 3 ≤ rank text → text ≡ "Needs you"
unfolding rank
rank_three text h = ground (arith, eq_iff text "Needs you")

rank_one : (text : String) → 1 ≤ rank text → rank text ≤ 1 → text ≡ "Live"
unfolding rank
rank_one text h k = ground (arith, eq_iff text "Live")

top_needs_you :
    (b : Status) (ss : List Status)
    → has_text "Needs you" (b ∷ ss) ≡ true
    → (top b ss).text ≡ "Needs you"
unfolding rank
top_needs_you b ss h =
    rank_three (top b ss).text (rank_of_text _ (b ∷ ss) "Needs you" (top-AllBelow b ss) h)

top_live :
    (b : Status) (ss : List Status)
    → has_text "Live" (b ∷ ss) ≡ true
    → AllBelow 1 (b ∷ ss)
    → (top b ss).text ≡ "Live"
unfolding rank
top_live b ss h k =
    rank_one (top b ss).text (rank_of_text _ (b ∷ ss) "Live" (top-AllBelow b ss) h)
      (top_within 1 b ss k)

rank_of_gone : (manual : Bool) → rank (if manual then "Stopped" else "Starting") ≤ 1
unfolding rank
rank_of_gone true = omega arith
rank_of_gone false = omega arith

module _ (lower : String → String) (parse_date : String → Option ℕ) where
  abbrev pub offered : ℕ → Bench → Option Agent → List Status → List Status
  offered now b none rest = rest
  offered now b (some agent) rest = agent_status lower parse_date now b agent ∷ rest

  -- What the benches whose worker is known offer, in order.
  abbrev pub statuses : ℕ → List Bench → List Status
  statuses now [] = []
  statuses now (b ∷ bs) = offered now b b.agent (statuses now bs)

  offer_all-offered :
      (now : ℕ) (best : Option Status) (b : Bench) (agent : Option Agent) (rest : List Status)
      → offer_all best (offered now b agent rest)
        ≡ offer_all (offer_bench lower parse_date now best b agent) rest
  unfolding offer_all offer_bench
  offer_all-offered now best b none rest = refl
  offer_all-offered now best b (some agent) rest = refl

  offer_benches-offer_all :
      (now : ℕ) (best : Option Status) (bs : List Bench)
      → offer_benches lower parse_date now best bs ≡ offer_all best (statuses now bs)
  unfolding offer_benches offer_all
  offer_benches-offer_all now best [] = refl
  offer_benches-offer_all now best (b ∷ bs) =
      offer_benches-offer_all now (offer_bench lower parse_date now best b b.agent) bs
      ∙ sym (offer_all-offered now best b b.agent (statuses now bs))

  shown_of :
      (now : ℕ) (bs : List Bench) (ss : List Status)
      → statuses now bs ≡ ss
      → bench_worker_status lower parse_date now bs ≡ or_else (offer_all none ss) live_status
  unfolding bench_worker_status
  shown_of now bs ss e =
      ap (λ o. or_else o live_status) (offer_benches-offer_all now none bs ∙ ap (offer_all none) e)

  needs_you_of :
      (ss : List Status)
      → has_text "Needs you" ss ≡ true
      → (or_else (offer_all none ss) live_status).text ≡ "Needs you"
  unfolding offer_all offer
  needs_you_of [] h = cc
  needs_you_of (s ∷ ss) h = rw (offer_all-top s ss) (top_needs_you s ss h)

  -- If the worker of some bench needs the person, that is the status shown, whatever the other
  -- benches offer.
  pub bench_worker_status-needs_you :
      (now : ℕ) (bs : List Bench)
      → has_text "Needs you" (statuses now bs) ≡ true
      → (bench_worker_status lower parse_date now bs).text ≡ "Needs you"
  bench_worker_status-needs_you now bs h =
      ap (λ s. s.text) (shown_of now bs (statuses now bs) refl) ∙ needs_you_of (statuses now bs) h

  turn_status-rank :
      (now : ℕ) (b : Bench) (o : Option ℕ) → rank (turn_status lower parse_date now b o).text ≤ 1
  unfolding turn_status rank
  turn_status-rank now b none = omega arith
  turn_status-rank now b (some t) =
      elim (Bool-cases
        (ltb now (t + pending_turn_timeout) && not (turn_answered lower parse_date b.timeline t))) [
          | inl busy ↦ rw busy (omega arith)
          | inr done ↦ rw done (omega arith)
        ]

  agent_status-rank :
      (now : ℕ) (b : Bench) (a : Agent)
      → (agent_status lower parse_date now b a).text == "Needs you" ≡ false
      → rank (agent_status lower parse_date now b a).text ≤ 1
  unfolding agent_status
  agent_status-rank now b a h = elim (Bool-cases (a.address == "")) [
    | inl gone ↦ rw gone (rank_of_gone (a.redeploy == "manual"))
    | inr here ↦ elim (Bool-cases (parked_on_ask lower parse_date b.approvals a.address)) [
      | inl parked ↦ absurd (cc (rw (here, parked) at h))
      | inr not_parked ↦ rw (here, not_parked) (turn_status-rank now b b.sent_at)
    ]
  ]

  offered-AllBelow :
      (now : ℕ) (b : Bench) (o : Option Agent) (rest : List Status)
      → has_text "Needs you" (offered now b o rest) ≡ false
      → (has_text "Needs you" rest ≡ false → AllBelow 1 rest)
      → AllBelow 1 (offered now b o rest)
  unfolding AllBelow
  offered-AllBelow now b none rest h k = k h
  offered-AllBelow now b (some a) rest h k =
      (agent_status-rank now b a (ground arith), k (ground arith))

  statuses-AllBelow :
      (now : ℕ) (bs : List Bench)
      → has_text "Needs you" (statuses now bs) ≡ false
      → AllBelow 1 (statuses now bs)
  unfolding AllBelow
  statuses-AllBelow now [] h = tt
  statuses-AllBelow now (b ∷ bs) h =
      offered-AllBelow now b b.agent (statuses now bs) h (statuses-AllBelow now bs)

  live_of :
      (ss : List Status)
      → has_text "Live" ss ≡ true
      → AllBelow 1 ss
      → (or_else (offer_all none ss) live_status).text ≡ "Live"
  unfolding offer_all offer
  live_of [] h k = cc
  live_of (s ∷ ss) h k = rw (offer_all-top s ss) (top_live s ss h k)

  -- If no bench's worker needs the person and some bench's worker is live with no turn in flight, the
  -- status shown is that it is live, although others may be working.
  pub bench_worker_status-live :
      (now : ℕ) (bs : List Bench)
      → has_text "Needs you" (statuses now bs) ≡ false
      → has_text "Live" (statuses now bs) ≡ true
      → (bench_worker_status lower parse_date now bs).text ≡ "Live"
  bench_worker_status-live now bs h k =
      ap (λ s. s.text) (shown_of now bs (statuses now bs) refl)
      ∙ live_of (statuses now bs) k (statuses-AllBelow now bs h)
