-- ===== src/Threads/Participants.antt =====
-- Who takes part in a message (apps/web/src/threads.ts).
use workbench.Prelude.{
  sym, ap, contains-append, contains-keep, eq_refl, keep, contains-add, add, ◌≡◌, refl, ◌∙◌, String,
  ◌==◌, eq_iff, arith, Bool, true, false, ◌||◌, or_else, ◌++◌, Option, none, some, List, [], ◌∷◌,
  any, contains, add_all, Bool-cases, inl, inr,
}
use workbench.Threads.{ThreadMessage, add_normalized, participants_of}

-- The addresses' texts, in any spelling that is normalized alike
abbrev pub names_one : (String → String) → List String → String → Bool
names_one normalize addresses a = any (λ s. normalize s == a) addresses

-- A message is from the address, or to it, or has it in its copies.
abbrev pub concerns : (String → String) → String → Option ThreadMessage → Bool
concerns normalize a none = false
concerns normalize a (some m) =
    normalize m.from == a || (names_one normalize m.to a || names_one normalize (or_else m.cc []) a)

module _ (normalize : String → String) where
  contains-add_normalized :
      (members rest : List String) (a : String)
      → contains (add_normalized normalize members rest) a
        ≡ (contains members a || names_one normalize rest a)
  unfolding add_normalized
  contains-add_normalized members [] a = ground arith
  contains-add_normalized members (b ∷ rest) a =
      contains-add_normalized (add members (normalize b)) rest a
      ∙ ground (arith, contains-add members (normalize b) a)

  names_one-append :
      (xs ys : List String) (a : String)
      → names_one normalize (xs ++ ys) a ≡ (names_one normalize xs a || names_one normalize ys a)
  names_one-append [] ys a = refl
  names_one-append (x ∷ xs) ys a = ground (arith, names_one-append xs ys a)

  pub contains-participants_of :
      (m : ThreadMessage) (a : String)
      → contains (participants_of normalize m) a ≡ concerns normalize a (some m)
  unfolding participants_of contains
  contains-participants_of m a =
      contains-add_normalized (add [] (normalize m.from)) (m.to ++ or_else m.cc []) a
      ∙ ground
          (arith, contains-add [] (normalize m.from) a, names_one-append m.to (or_else m.cc []) a)

pub contains-one : (b a : String) → contains (b ∷ []) a ≡ (b == a)
unfolding contains
contains-one b a = ground arith

pub contains-add_all :
    (xs ys : List String) (a : String)
    → contains (add_all xs ys) a ≡ (contains xs a || contains ys a)
unfolding add_all contains
contains-add_all xs [] a = ground arith
contains-add_all xs (y ∷ ys) a =
    contains-add_all (add xs y) ys a ∙ ground (arith, contains-add xs y a)

pub any-contains :
    (users members : List String)
    → any (contains users) members ≡ true
    → (u : String) × (contains members u ≡ true) × (contains users u ≡ true)
unfolding contains
any-contains users [] h = absurd (cc)
any-contains users (m ∷ ms) h = elim (Bool-cases (contains users m)) [
  | inl user ↦ (m, ground (arith, eq_iff m m), user)
  | inr other ↦
      let (u, e, f) = any-contains users ms (ground (arith, h, other)) in (u, ground (arith, e), f)
]

pub contains-any :
    (users members : List String) (u : String)
    → contains members u ≡ true
    → contains users u ≡ true
    → any (contains users) members ≡ true
unfolding contains
contains-any users [] u h k = absurd (cc)
contains-any users (m ∷ ms) u h k = elim (Bool-cases (m == u)) [
  | inl same ↦
      let found : contains users m ≡ true = ap (contains users) ((eq_iff m u).0 same) ∙ k in
      ground (arith, found)
  | inr other ↦
      let later = contains-any users ms u (ground (arith, h, other)) k in ground (arith, later)
]

-- No text stands in the list twice.
abbrev pub IsOnce : List String → Type 0
IsOnce [] = Unit {0}
IsOnce (x ∷ xs) = (contains xs x ≡ false) × IsOnce xs

IsOnce-append :
    (xs : List String) (a : String) → contains xs a ≡ false → IsOnce xs → IsOnce (xs ++ a ∷ [])
unfolding contains
IsOnce-append [] a h k = (refl, tt)
IsOnce-append (x ∷ xs) a h (once, rest) = (
  contains-append xs (a ∷ []) x ∙ ground (arith, h, once, contains-one a x, eq_iff a x, eq_iff x a),
  IsOnce-append xs a (ground (arith, h)) rest,
)

IsOnce-add : (xs : List String) (a : String) → IsOnce xs → IsOnce (add xs a)
unfolding add
IsOnce-add xs a h = elim (Bool-cases (contains xs a)) [
  | inl there ↦ rw there h
  | inr absent ↦ rw absent (IsOnce-append xs a absent h)
]

pub IsOnce-add_all : (xs ys : List String) → IsOnce xs → IsOnce (add_all xs ys)
unfolding add_all
IsOnce-add_all xs [] h = h
IsOnce-add_all xs (y ∷ ys) h = IsOnce-add_all (add xs y) ys (IsOnce-add xs y h)

pub IsOnce-keep : (p : String → Bool) (xs : List String) → IsOnce xs → IsOnce (keep p xs)
unfolding contains
IsOnce-keep p [] h = tt
IsOnce-keep p (x ∷ xs) (once, rest) = elim (Bool-cases (p x)) [
  | inl kept ↦ rw kept (contains-keep p xs x ∙ ground (arith, once), IsOnce-keep p xs rest)
  | inr left ↦ rw left (IsOnce-keep p xs rest)
]

-- A list without repetitions whose only member is `a`
pub IsOnce-one :
    (xs : List String) (a : String)
    → IsOnce xs
    → ((b : String) → contains xs b ≡ (a == b))
    → xs ≡ a ∷ []
unfolding contains
IsOnce-one [] a h k = absurd (cc (k a, eq_refl a))
IsOnce-one (x ∷ []) a h k =
    ap (λ y. y ∷ []) (sym ((eq_iff a x).0 (sym (k x) ∙ ground (arith, eq_refl x))))
IsOnce-one (x ∷ y ∷ xs) a h k =
    let first : a ≡ x = (eq_iff a x).0 (sym (k x) ∙ ground (arith, eq_refl x)) in
    let second : a ≡ y = (eq_iff a y).0 (sym (k y) ∙ ground (arith, eq_refl y)) in
    let same : y == x ≡ true = (eq_iff y x).1 (sym second ∙ first) in
    absurd (ground (arith, h.0, same))
