-- ===== src/Inference/Chosen.antt =====
-- The default model of a provider (apps/web/src/settings/inference/effective-list.ts).
use workbench.Prelude.{
  All-Member, some_eq, subst, Member, int_le_refl, ℕ, ◌≡◌, refl, sym, ◌⊎◌, inl, inr, ℤ, pos, negsuc,
  int_lt, int_le, String, true, false, none, some, List, [], ◌∷◌, get_elem?, zero, suc, All, arith,
  Bool-cases,
}
use workbench.Inference.{Names, ModelInfo, Candidate, best_of, default_model_for_provider}
use workbench.Inference.Candidates.{capable, IsOffered, capable-IsOffered}

int_le_trans : (x y z : ℤ) → int_le x y ≡ true → int_le y z ≡ true → int_le x z ≡ true
int_le_trans (pos x) (pos y) (pos z) h k = ground arith
int_le_trans (pos x) (pos y) (negsuc z) h k = ground arith
int_le_trans (pos x) (negsuc y) (pos z) h k = ground arith
int_le_trans (pos x) (negsuc y) (negsuc z) h k = ground arith
int_le_trans (negsuc x) (pos y) (pos z) h k = ground arith
int_le_trans (negsuc x) (pos y) (negsuc z) h k = ground arith
int_le_trans (negsuc x) (negsuc y) (pos z) h k = ground arith
int_le_trans (negsuc x) (negsuc y) (negsuc z) h k = ground arith

int_lt-weaken : (x y : ℤ) → int_lt x y ≡ true → int_le x y ≡ true
int_lt-weaken (pos x) (pos y) h = ground arith
int_lt-weaken (pos x) (negsuc y) h = ground arith
int_lt-weaken (negsuc x) (pos y) h = ground arith
int_lt-weaken (negsuc x) (negsuc y) h = ground arith

not_behind : (x y : ℤ) → int_lt x y ≡ false → int_le y x ≡ true
not_behind x y h = ground arith

-- `x` stands in the list, and no candidate of the list has a smaller priority.
pub record IsBest (x : Candidate) (cs : List Candidate) : Type 0 where
  pub index : ℕ
  pub stands : get_elem? cs index ≡ some x
  pub least : All (λ c. int_le x.priority c.priority ≡ true) cs

later-IsBest :
    (x b c : Candidate) (cs : List Candidate)
    → int_lt c.priority b.priority ≡ true
    → IsBest x (c ∷ cs)
    → IsBest x (b ∷ c ∷ cs)
later-IsBest x b c cs ahead h = record {
  index = suc h.index;
  stands = h.stands;
  least = (
    int_le_trans x.priority c.priority b.priority h.least.0
        (int_lt-weaken c.priority b.priority ahead),
    h.least,
  );
}

past_second :
    (x b c : Candidate) (cs : List Candidate) (i : ℕ)
    → get_elem? (b ∷ cs) i ≡ some x
    → (j : ℕ) × (get_elem? (b ∷ c ∷ cs) j ≡ some x)
past_second x b c cs zero e = (zero, e)
past_second x b c cs (suc i) e = (suc (suc i), e)

same-IsBest :
    (x b c : Candidate) (cs : List Candidate)
    → int_lt c.priority b.priority ≡ false
    → IsBest x (b ∷ cs)
    → IsBest x (b ∷ c ∷ cs)
same-IsBest x b c cs behind h =
    let (j, e) = past_second x b c cs h.index h.stands in
    let b_c = not_behind c.priority b.priority behind in
    record {
      index = j;
      stands = e;
      least = (h.least.0, (int_le_trans x.priority b.priority c.priority h.least.0 b_c, h.least.1));
    }

best_of-IsBest :
    (b : Candidate) (cs : List Candidate)
    → (x : Candidate) × (best_of (some b) cs ≡ some x) × IsBest x (b ∷ cs)
unfolding best_of
best_of-IsBest b [] =
    (b, refl, record { index = 0; stands = refl; least = (int_le_refl b.priority, tt) })
best_of-IsBest b (c ∷ cs) = elim (Bool-cases (int_lt c.priority b.priority)) [
  | inl ahead ↦
      let (x, e, h) = best_of-IsBest c cs in rw ahead (x, e, later-IsBest x b c cs ahead h)
  | inr behind ↦
      let (x, e, h) = best_of-IsBest b cs in rw behind (x, e, same-IsBest x b c cs behind h)
]

best_of-cases :
    (cs : List Candidate)
    → ((cs ≡ []) × (best_of none cs ≡ none))
      ⊎ ((x : Candidate) × (best_of none cs ≡ some x) × IsBest x cs)
unfolding best_of
best_of-cases [] = inl (refl, refl)
best_of-cases (c ∷ cs) = inr (best_of-IsBest c cs)

IsBest-Member : (x : Candidate) (cs : List Candidate) → IsBest x cs → Member x cs
IsBest-Member x cs h = stands-Member cs h.index h.stands
  where
    stands-Member : (ds : List Candidate) (i : ℕ) → get_elem? ds i ≡ some x → Member x ds
    stands-Member [] i e = absurd (cc)
    stands-Member (d ∷ ds) zero e = inl (sym (some_eq e))
    stands-Member (d ∷ ds) (suc i) e = inr (stands-Member ds i e)

-- Either the provider has no default model, and no model has an offering of the provider that can
-- complete a chat; or the default is made of such an offering and its model, and no such offering has a
-- smaller priority. An offering can complete a chat if the model's name is no path of a file or of a hub,
-- and its capabilities have plain text, or there are none and the name is not that of an embedding.
pub default_model_for_provider-cases :
    (js : Names) (models : List ModelInfo) (provider : String)
    → ((default_model_for_provider js models provider ≡ none)
        × ((x : Candidate) → ¬ IsOffered js provider models x))
      ⊎ ((x : Candidate) × (default_model_for_provider js models provider ≡ some x)
          × IsOffered js provider models x
          × ((y : Candidate)
              → IsOffered js provider models y
              → int_le x.priority y.priority ≡ true))
unfolding default_model_for_provider
default_model_for_provider-cases js models provider =
    elim (best_of-cases (capable js models provider)) [
      | inl (empty, e) ↦
          inl (e, λ x h. subst (Member x) empty ((capable-IsOffered js models provider x).1 h))
      | inr (x, e, best) ↦ inr (
        x,
        e,
        (capable-IsOffered js models provider x).0 (IsBest-Member x _ best),
        λ y h. All-Member _ y _ best.least ((capable-IsOffered js models provider y).1 h),
      )
    ]
