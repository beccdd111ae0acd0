-- ===== src/Threads/Roots.antt =====
-- When the search for a root ends, and the headers of a fork.
use workbench.Prelude.{
  ℕ, zero, suc, ◌<◌, ◌≡◌, refl, sym, append-nil, ap, String, eq_iff, true, Option, none, some,
  or_else, List, [], ◌∷◌, ◌++◌, Dict, lookup, arith, Bool-cases, Option-cases, inl, inr,
}
use workbench.Threads.{root_of, last, is_text, build_fork_reference}

-- Where every parent is of a smaller rank than its child, a search with more fuel than the rank of
-- its message ends, at a message without a parent.
pub root_of-ends :
    (parent : Dict String) (rank : String → ℕ) (fuel : ℕ) (id : String)
    → ((child p : String) → lookup child parent ≡ some p → rank p < rank child)
    → rank id < fuel
    → (root : String) × (root_of parent fuel id ≡ some root) × (lookup root parent ≡ none)
unfolding root_of
root_of-ends parent rank zero id h enough = absurd (omega (arith, enough))
root_of-ends parent rank (suc fuel) id h enough = elim (Option-cases (lookup id parent)) [
  | inl top ↦ (id, rw (top, root_of) refl, top)
  | inr (p, e) ↦
      let closer = h id p e in
      let (root, ended, none_above) = root_of-ends parent rank fuel p h (omega arith) in
      (root, rw (e, root_of) ended, none_above)
]

-- Where two messages are each other's parents, the search for the root of either never ends.
pub root_of-cycle :
    (parent : Dict String) (a b : String) (fuel : ℕ)
    → lookup a parent ≡ some b
    → lookup b parent ≡ some a
    → (root_of parent fuel a ≡ none) × (root_of parent fuel b ≡ none)
unfolding root_of
root_of-cycle parent a b zero e f = (refl, refl)
root_of-cycle parent a b (suc fuel) e f =
    let (at_a, at_b) = root_of-cycle parent a b fuel e f in
    (rw (e, root_of) at_b, rw (f, root_of) at_a)

last-append : (xs : List String) (x : String) → last (xs ++ x ∷ []) ≡ some x
unfolding last
last-append [] x = refl
last-append (y ∷ []) x = refl
last-append (y ∷ z ∷ xs) x = last-append (z ∷ xs) x

is_text-eq : (o : Option String) (s : String) → is_text o s ≡ true → o ≡ some s
is_text-eq none s h = cc
is_text-eq (some t) s h = ap some ((eq_iff t s).0 h)

-- A fork replies to its parent, and its references end with the parent: they are the parent's own
-- references, with the parent added unless they end with it already.
pub build_fork_reference-last :
    (id : String) (references : Option (List String))
    → ((build_fork_reference id references).in_reply_to ≡ id)
      × (last (build_fork_reference id references).references ≡ some id)
      × ((extra : List String) × ((build_fork_reference id references).references
            ≡ or_else references [] ++ extra))
unfolding build_fork_reference
build_fork_reference-last id references =
    elim (Bool-cases (is_text (last (or_else references [])) id)) [
      | inl ends ↦ rw ends (
        refl,
        is_text-eq (last (or_else references [])) id ends,
        ([], sym (append-nil (or_else references []))),
      )
      | inr other ↦ rw other (refl, last-append (or_else references []) id, (id ∷ [], refl))
    ]
