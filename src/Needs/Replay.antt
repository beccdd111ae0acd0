-- ===== src/Needs/Replay.antt =====
-- When a fork is replayed, and when it is sent again.
use workbench.Prelude.{
  ◌≡◌, refl, sym, ap, ◌∙◌, subst, String, eq_iff, eq_refl, Bool, true, false, Option, none, some,
  List, [], ◌∷◌, ◌++◌, find, keep, arith, Option-cases, inl, inr,
}
use workbench.Prelude.Action.{Attempt, done, thrown}
use workbench.Threads.{build_fork_reference}
use workbench.Needs.{
  Json, ThreadLink, load_thread_links, record_thread_link, is_thread_link, is_nonempty?,
}
use workbench.Needs.Stores.{AllValid, stored_rows-AllValid, stored_rows-record_row}
use workbench.Needs.Fork.{
  ForkParent, ForkInput, ForkWorld, is_same, same_addresses, is_replay, link_of, mail_of, send_fork,
  fork_sub_thread,
}

find-keep {ℓ} :
    {A : Type ℓ} (p q : A → Bool) (xs : List A) → find p xs ≡ none → find p (keep q xs) ≡ none
find-keep p q [] h = refl
find-keep p q (x ∷ xs) h = ground (arith, find-keep p q xs)

find-append {ℓ} :
    {A : Type ℓ} (p : A → Bool) (xs : List A) (x : A)
    → find p xs ≡ none
    → p x ≡ true
    → find p (xs ++ x ∷ []) ≡ some x
find-append p [] x h k = rw k refl
find-append p (y ∷ ys) x h k = ground (arith, find-append p ys x)

same_addresses_refl : (xs : List String) → same_addresses xs xs ≡ true
unfolding same_addresses
same_addresses_refl [] = refl
same_addresses_refl (x ∷ xs) = rw (eq_refl x) (same_addresses_refl xs)

-- The link that a sent fork records.
abbrev pub recorded : ForkParent → ForkInput → String → ThreadLink
recorded parent input m =
    link_of parent input (build_fork_reference parent.message_id parent.references) m

is_replay-recorded :
    (parent : ForkParent) (input : ForkInput) (m : String)
    → is_replay parent input (recorded parent input m) ≡ true
unfolding is_replay build_fork_reference
is_replay-recorded parent input m = simp (
  eq_refl parent.workbench_local_id,
  eq_refl parent.message_id,
  eq_refl input.subject,
  eq_refl input.body,
  same_addresses_refl input.to,
)

module _ {E : Type 0} (json : Json ThreadLink) (answer : ForkWorld json → Attempt E String)
    (key : String) where
  -- The state after a fork that was sent and answered with `m`.
  abbrev after_sending : ForkParent → ForkInput → String → ForkWorld json → ForkWorld json
  after_sending parent input m w = record {
    storage = record_thread_link json key (recorded parent input m) w.storage;
    sent = mail_of parent input (build_fork_reference parent.message_id parent.references) ∷ w.sent;
  }

  find_after_sending :
      (parent : ForkParent) (input : ForkInput) (m : String) (w : ForkWorld json)
      → is_thread_link (recorded parent input m) ≡ true
      → find (is_replay parent input) (load_thread_links json key w.storage) ≡ none
      → find (is_replay parent input) (
          load_thread_links json key
            (record_thread_link json key (recorded parent input m) w.storage))
        ≡ some (recorded parent input m)
  unfolding load_thread_links record_thread_link
  find_after_sending parent input m w good unseen =
      let l = recorded parent input m in
      ap (find (is_replay parent input))
        (stored_rows-record_row json is_thread_link (λ x. x.message_id) key l w.storage good)
      ∙ find-append (is_replay parent input) _ l (find-keep (is_replay parent input) _ _ unseen)
          (is_replay-recorded parent input m)

  replayed :
      (parent : ForkParent) (input : ForkInput) (link : ThreadLink) (w : ForkWorld json)
      → find (is_replay parent input) (load_thread_links json key w.storage) ≡ some link
      → fork_sub_thread json answer key parent input w ≡ (done link.message_id, w)
  unfolding fork_sub_thread
  replayed parent input link w seen = rw seen refl

  sent_with :
      (parent : ForkParent) (input : ForkInput) (w w' : ForkWorld json) (m : String)
      (r : Attempt E String)
      → answer w ≡ r
      → is_thread_link (recorded parent input m) ≡ true
      → find (is_replay parent input) (load_thread_links json key w.storage) ≡ none
      → send_fork json answer key parent input w ≡ (done m, w')
      → fork_sub_thread json answer key parent input w' ≡ (done m, w')
  unfolding send_fork
  sent_with parent input w w' m (thrown x) a good unseen e =
      cc (ap (λ p. p.0) (rw (a, send_fork) at e))
  sent_with parent input w w' m (done n) a good unseen e =
      let e' = rw (a, send_fork) at e in
      let same : n ≡ m = cc (ap (λ p. p.0) e') in
      let good_n = subst (λ k. is_thread_link (recorded parent input k) ≡ true) (sym same) good in
      subst
        (λ (p : Attempt E String × ForkWorld json).
          fork_sub_thread json answer key parent input p.1 ≡ p)
        e'
        (replayed parent input (recorded parent input n) (after_sending parent input n w)
          (find_after_sending parent input n w good_n unseen))

  -- If a fork yields a message id, and the link that records it satisfies the schema of the links,
  -- then a retry of the same fork yields the same id, sends nothing and writes nothing.
  pub fork_sub_thread_again :
      (parent : ForkParent) (input : ForkInput) (w w' : ForkWorld json) (m : String)
      → is_thread_link (recorded parent input m) ≡ true
      → fork_sub_thread json answer key parent input w ≡ (done m, w')
      → fork_sub_thread json answer key parent input w' ≡ (done m, w')
  unfolding fork_sub_thread
  fork_sub_thread_again parent input w w' m good e =
      elim (Option-cases (find (is_replay parent input) (load_thread_links json key w.storage))) [
        | inr (link, seen) ↦
            subst
              (λ (p : Attempt E String × ForkWorld json).
                fork_sub_thread json answer key parent input p.1 ≡ p)
              (rw seen at e) (replayed parent input link w seen)
        | inl unseen ↦ sent_with parent input w w' m (answer w) refl good unseen (rw unseen at e)
      ]

  unmatched : (o : Option String) → is_nonempty? o ≡ true → is_same o "" ≡ false
  unmatched none h = refl
  unmatched (some s) h = ground (arith, eq_iff s "")

  is_replay_blank :
      (parent : ForkParent) (input : ForkInput) (l : ThreadLink)
      → input.subject ≡ ""
      → is_thread_link l ≡ true
      → is_replay parent input l ≡ false
  unfolding is_replay is_thread_link
  is_replay_blank parent input l blank good = ground (arith, unmatched l.subject, blank)

  find_blank :
      (parent : ForkParent) (input : ForkInput) (ls : List ThreadLink)
      → input.subject ≡ ""
      → AllValid json is_thread_link (λ x. x.message_id) ls
      → find (is_replay parent input) ls ≡ none
  find_blank parent input [] blank h = refl
  find_blank parent input (l ∷ ls) blank (good, h) =
      rw (is_replay_blank parent input l blank good) (find_blank parent input ls blank h)

  send_fork-sent :
      (parent : ForkParent) (input : ForkInput) (w : ForkWorld json) (r : Attempt E String)
      → answer w ≡ r
      → (send_fork json answer key parent input w).1.sent
        ≡ mail_of parent input (build_fork_reference parent.message_id parent.references) ∷ w.sent
  unfolding send_fork
  send_fork-sent parent input w (done n) a = rw (a, send_fork) refl
  send_fork-sent parent input w (thrown x) a = rw (a, send_fork) refl

  -- A fork with the empty subject is sent every time, whatever was recorded before: no link with that
  -- subject satisfies the schema, so none is found.
  pub fork_sub_thread_blank :
      (parent : ForkParent) (input : ForkInput) (w : ForkWorld json)
      → input.subject ≡ ""
      → (fork_sub_thread json answer key parent input w).1.sent
        ≡ mail_of parent input (build_fork_reference parent.message_id parent.references) ∷ w.sent
  unfolding fork_sub_thread load_thread_links
  fork_sub_thread_blank parent input w blank =
      rw
        (find_blank parent input _ blank
          (stored_rows-AllValid json is_thread_link (λ x. x.message_id) key w.storage))
        (send_fork-sent parent input w (answer w) refl)
