-- ===== src/Provision/Store/Advance.antt =====
-- The order in which the record of one allocation may change.
use workbench.Prelude.{ℕ, ◌≤◌, ◌≡◌, String, Option, none, some, eq_iff, arith}
use workbench.Provision.Store.{
  ensured, destroyed, Allocation, Target, judge_ensure, judge_destroy, recordable, ensured_record,
  destroyed_record,
}

-- The sidecar stays, the generation does not fall, and a destroyed generation stays destroyed.
abbrev pub Advances : Option Allocation → Option Allocation → Type 0
Advances none b = Unit
Advances (some a) none = ⊥
Advances (some a) (some b) =
    (a.sidecar_id ≡ b.sidecar_id)
    × (a.generation ≤ b.generation)
    × (a.generation ≡ b.generation → a.desired ≡ destroyed → b.desired ≡ destroyed)

pub Advances-refl : (a : Option Allocation) → Advances a a
Advances-refl none = tt
Advances-refl (some a) = ground arith

pub Advances-trans : (a b d : Option Allocation) → Advances a b → Advances b d → Advances a d
Advances-trans none b d h k = tt
Advances-trans (some a) (some b) (some d) h k = ground arith
Advances-trans (some a) none d h k = absurd h
Advances-trans (some a) (some b) none h k = absurd k

pub judge_ensure-Advances :
    (o : Option Allocation) (t : Target) (now : String)
    → judge_ensure o t ≡ none
    → Advances o (some (ensured_record t now))
unfolding judge_ensure
judge_ensure-Advances none t now h = tt
judge_ensure-Advances (some a) t now h = ground (arith, eq_iff a.sidecar_id t.sidecar_id)

pub judge_destroy-Advances :
    (o : Option Allocation) (t : Target) (now : String)
    → judge_destroy o t ≡ none
    → Advances o (some (destroyed_record o t now))
unfolding judge_destroy
judge_destroy-Advances none t now h = tt
judge_destroy-Advances (some a) t now h = ground (arith, eq_iff a.sidecar_id t.sidecar_id)

pub recordable-eq :
    (o : Option Allocation) (g : ℕ) (r : Allocation)
    → recordable o g ≡ some r
    → (o ≡ some r) × (r.generation ≡ g) × (r.desired ≡ ensured)
unfolding recordable
recordable-eq none g r h = ground arith
recordable-eq (some a) g r h = ground arith
