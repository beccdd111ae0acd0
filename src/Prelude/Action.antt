-- ===== src/Prelude/Action.antt =====
-- Asynchronous code that mutates and may throw: what was written before a throw stays written.
use mathlib.Core.Path.{◌≡◌, refl}
use mathlib.Core.Bool.{Bool, true, false}
use workbench.Prelude.Tests.{if◌then◌else◌}

pub data Attempt {ℓ} (E A : Type ℓ) : Type ℓ where
  done : A → Attempt E A
  thrown : E → Attempt E A

abbrev pub Action : Type 0 → Type 0 → Type 0 → Type 0
Action S E A = S → Attempt E A × S

module _ {S E A : Type 0} where
  abbrev pub pure : A → Action S E A
  pure a s = (done a, s)

  abbrev pub throw : E → Action S E A
  throw e s = (thrown e, s)

  abbrev pub gets : (S → A) → Action S E A
  gets f s = (done (f s), s)

module _ {S E A B : Type 0} where
  abbrev pub resume : Attempt E A → (A → Action S E B) → Action S E B
  resume (done a) k s = k a s
  resume (thrown e) k s = (thrown e, s)

  infixl 5 ◌>>=◌ ◌>>◌
  abbrev pub ◌>>=◌ : Action S E A → (A → Action S E B) → Action S E B
  ◌>>=◌ m k s = resume (m s).0 k (m s).1

  abbrev pub ◌>>◌ : Action S E A → Action S E B → Action S E B
  ◌>>◌ m k s = resume (m s).0 (λ _. k) (m s).1

module _ {S E : Type 0} where
  abbrev pub modify : (S → S) → Action S E (Unit {0})
  modify f s = (done tt, f s)

-- What holds of the state that was reached holds after returning a value there, whether or not
-- something was thrown before.
module _ {S E A B : Type 0} where
  pub resume_keeps :
      (P : S → Type 0) (r : Attempt E A) (b : B) (s : S) → P s → P (resume r (λ _. pure b) s).1
  resume_keeps P (done a) b s h = h
  resume_keeps P (thrown e) b s h = h

-- An action that returned got a value from its first part.
module _ {S E A B : Type 0} where
  pub resume-done :
      (r : Attempt E A) (k : A → Action S E B) (s : S) {b : B} {u : S}
      → resume r k s ≡ (done b, u)
      → (a : A) × (r ≡ done a) × (k a s ≡ (done b, u))
  resume-done (done a) k s h = (a, refl, h)
  resume-done (thrown e) k s h = cc

module _ {S E A B : Type 0} where
  attempt-done :
      (p : Attempt E A × S) (k : A → Action S E B) {b : B} {u : S}
      → resume p.0 k p.1 ≡ (done b, u)
      → (a : A) × (s : S) × (p ≡ (done a, s)) × (k a s ≡ (done b, u))
  attempt-done (done a, s) k h = (a, s, refl, h)
  attempt-done (thrown e, s) k h = absurd cc

  pub bind-done :
      (m : Action S E A) (k : A → Action S E B) (s : S) {b : B} {u : S}
      → (m >>= k) s ≡ (done b, u)
      → (a : A) × (t : S) × (m s ≡ (done a, t)) × (k a t ≡ (done b, u))
  bind-done m k s h = attempt-done (m s) k h

-- `m` keeps `P`, whether it returns or throws.
pub record Keeps {S E A : Type 0} (P : S → Type 0) (m : Action S E A) : Type 0 where
  pub at : (s : S) → P s → P (m s).1

module _ {S E A B : Type 0} {P : S → Type 0} where
  resume-Keeps :
      (r : Attempt E A) (k : A → Action S E B) (s : S)
      → ((a : A) → Keeps P (k a))
      → P s
      → P (resume r k s).1
  resume-Keeps (done a) k s kept h = (kept a).at s h
  resume-Keeps (thrown e) k s kept h = h

  pub Keeps-bind :
      (m : Action S E A) (k : A → Action S E B)
      → Keeps P m
      → ((a : A) → Keeps P (k a))
      → Keeps P (m >>= k)
  Keeps-bind m k here later = record {
    at = λ s h. resume-Keeps (m s).0 k (m s).1 later (here.at s h);
  }

  pub Keeps-seq : (m : Action S E A) (k : Action S E B) → Keeps P m → Keeps P k → Keeps P (m >> k)
  Keeps-seq m k here later = Keeps-bind m (λ _. k) here (λ _. later)

module _ {S E A : Type 0} {P : S → Type 0} where
  pub Keeps-pure : (a : A) → Keeps {E = E} P (pure a)
  Keeps-pure a = record { at = λ s h. h }

  pub Keeps-throw : (e : E) → Keeps {A = A} P (throw e)
  Keeps-throw e = record { at = λ s h. h }

  pub Keeps-if :
      (b : Bool) (m k : Action S E A) → Keeps P m → Keeps P k → Keeps P (if b then m else k)
  Keeps-if true m k hm hk = hm
  Keeps-if false m k hm hk = hk

pub ruleset keeps_rules = (Keeps-bind, Keeps-seq, Keeps-pure, Keeps-throw, Keeps-if)
