-- ===== src/Recents/Pushed.antt =====
-- What a pushed entry leaves.
use workbench.Needs.{Json, Storage}
use workbench.Prelude.{
  ℕ, zero, suc, ◌≤◌, ◌≡◌, refl, ap, ◌∙◌, eq_refl, String, ◌==◌, Bool, true, none, some, List, [],
  ◌∷◌, map, find, take, take-take, length-take, length, insert, lookup-insert, arith, Bool-cases,
  inl, inr,
}
use workbench.Recents.{
  RecentEntry, recent_key, without_entry, add_recent_entry, recent_rows, load_recents, push_recent,
}

recent_rows-map : (es : List RecentEntry) → recent_rows (map some es) ≡ es
unfolding recent_rows
recent_rows-map [] = refl
recent_rows-map (e ∷ es) = ap (λ l. e ∷ l) (recent_rows-map es)

find-take {ℓ} :
    {A : Type ℓ} (p : A → Bool) (n : ℕ) (xs : List A) → find p xs ≡ none → find p (take n xs) ≡ none
find-take p zero xs h = refl
find-take p (suc n) [] h = refl
find-take p (suc n) (x ∷ xs) h = ground (arith, find-take p n xs)

find-without_entry :
    (entry : RecentEntry) (es : List RecentEntry)
    → find (λ x. recent_key x == recent_key entry) (without_entry entry es) ≡ none
find-without_entry entry [] = refl
find-without_entry entry (e ∷ es) = elim (Bool-cases (recent_key e == recent_key entry)) [
  | inl same ↦ rw same (find-without_entry entry es)
  | inr other ↦ rw other (rw other (find-without_entry entry es))
]

-- The entry is in front, no other has its key, and there are at most as many as allowed.
abbrev pub IsPushed : ℕ → RecentEntry → List RecentEntry → Type 0
IsPushed max entry es =
    (rest : List RecentEntry) × (es ≡ entry ∷ rest)
    × (find (λ x. recent_key x == recent_key entry) rest ≡ none)
    × (length es ≤ max)

module _ (json : Json RecentEntry) (key : String) where
  load-written :
      (max : ℕ) (es : List RecentEntry) (storage : Storage json)
      → load_recents json key max (insert key (json.stringify es) storage) ≡ take max es
  unfolding load_recents
  load-written max es storage =
      rw (lookup-insert key key (json.stringify es) storage, eq_refl key, json.parse-stringify es)
        (ap (take max) (recent_rows-map es))

  -- A pushed entry is in front, no other entry has its key, and there are at most as many entries as
  -- allowed, of which one at least is; where the storage can be write_recents, a load then gives the same.
  pub push_recent-IsPushed :
      (n : ℕ) (entry : RecentEntry) (storage : Storage json)
      → IsPushed (suc n) entry (push_recent json key (suc n) true entry storage).0
        × (load_recents json key (suc n) (push_recent json key (suc n) true entry storage).1
            ≡ (push_recent json key (suc n) true entry storage).0)
  unfolding push_recent add_recent_entry
  push_recent-IsPushed n entry storage =
      let kept = without_entry entry (load_recents json key (suc n) storage) in
      (
        (
          take n kept,
          refl,
          find-take (λ x. recent_key x == recent_key entry) n kept
              (find-without_entry entry (load_recents json key (suc n) storage)),
          omega (arith, length-take n kept),
        ),
        load-written (suc n) (take (suc n) (entry ∷ kept)) storage
            ∙ take-take (suc n) (entry ∷ kept),
      )
