-- ===== src/Threads/WithAgent.antt =====
-- Which threads `deriveDmThreads` of apps/web/src/threads.ts gives.
use workbench.Prelude.{
  ◌⊎◌, refl, contains-keep, some_eq, ℕ, ◌≡◌, refl, ap, subst, sym, ◌∙◌, String, ◌==◌, arith, Bool,
  true, not, ◌&&◌, ◌||◌, Option, none, some, List, [], ◌∷◌, map, keep, any, contains, add_all, Dict,
  lookup, Bool-cases, Option-cases, inl, inr,
}
use workbench.Threads.{ThreadMessage, participants_of}
use workbench.Threads.Grouping.{Runtime, Thread, derive_threads}
use workbench.Threads.Participants.{
  names_one, concerns, contains-participants_of, contains-one, contains-add_all, any-contains,
  contains-any, IsOnce, IsOnce-add_all, IsOnce-keep, IsOnce-one,
}
use workbench.Threads.Direct.{
  DmThread, index_messages, only_one, dm_of, found_participants, thread_participants, direct_thread,
  direct_threads, users_of, derive_dm_threads,
}

only_one-eq : (xs : List String) (a : String) → only_one xs ≡ some a → xs ≡ a ∷ []
only_one-eq [] a h = cc
only_one-eq (x ∷ []) a h = cc
only_one-eq (x ∷ y ∷ xs) a h = cc

module _ (runtime : Runtime) (by_id : Dict ThreadMessage) (addresses : List String) where
  -- Some message of these ids is from or to the address, or has it in its copies.
  abbrev pub takes_part : List String → String → Bool
  takes_part ids a = any (λ id. concerns (runtime.normalize) a (lookup id by_id)) ids

  -- Some participant is an address of the user, and the participants who are not are the agent.
  abbrev pub IsDirect : List String → String → Type 0
  IsDirect ids agent =
      ((u : String) × (takes_part ids u ≡ true)
        × (names_one (runtime.normalize) addresses u ≡ true))
      × ((a : String)
          → (takes_part ids a && not (names_one (runtime.normalize) addresses a)) ≡ (agent == a))

  abbrev pub direct_dm : Thread → String → DmThread
  direct_dm t agent = record {
    agent_address = agent;
    root_message_id = t.root_message_id;
    ids = t.ids;
  }

  -- The direct threads are those of the threads that are direct with some agent, in order.
  abbrev pub AreDirect : List Thread → List DmThread → Type 0
  AreDirect [] dms = dms ≡ []
  AreDirect (t ∷ ts) dms =
      ((agent : String) × (rest : List DmThread) × (dms ≡ direct_dm t agent ∷ rest)
        × IsDirect t.ids agent
        × AreDirect ts rest)
      ⊎ (((agent : String) → ¬ IsDirect t.ids agent) × AreDirect ts dms)

  contains-found :
      (acc : List String) (o : Option ThreadMessage) (a : String)
      → contains (found_participants runtime acc o) a
        ≡ (contains acc a || concerns (runtime.normalize) a o)
  contains-found acc none a = ground arith
  contains-found acc (some m) a =
      contains-add_all acc (participants_of (runtime.normalize) m) a
      ∙ ap (λ b. contains acc a || b) (contains-participants_of (runtime.normalize) m a)

  contains-thread_participants :
      (acc ids : List String) (a : String)
      → contains (thread_participants runtime by_id acc ids) a
        ≡ (contains acc a || takes_part ids a)
  unfolding thread_participants
  contains-thread_participants acc [] a = ground arith
  contains-thread_participants acc (id ∷ ids) a =
      contains-thread_participants (found_participants runtime acc (lookup id by_id)) ids a
      ∙ ground (arith, contains-found acc (lookup id by_id) a)

  contains-users_of :
      (a : String)
      → contains (users_of runtime addresses) a ≡ names_one (runtime.normalize) addresses a
  unfolding contains
  contains-users_of a =
      contains-add_all [] (map (runtime.normalize) addresses) a ∙ contains-map addresses a
    where
      contains-map :
          (xs : List String) (a : String)
          → contains (map (runtime.normalize) xs) a ≡ names_one (runtime.normalize) xs a
      contains-map [] a = refl
      contains-map (x ∷ xs) a = ap (λ b. (runtime.normalize) x == a || b) (contains-map xs a)

  abbrev users : List String
  users = users_of runtime addresses

  members-takes_part :
      (ids : List String) (a : String)
      → contains (thread_participants runtime by_id [] ids) a ≡ takes_part ids a
  unfolding contains
  members-takes_part ids a = contains-thread_participants [] ids a

  kept_members :
      (ids : List String) (a : String)
      → contains (keep (λ m. not (contains users m)) (thread_participants runtime by_id [] ids)) a
        ≡ (takes_part ids a && not (names_one (runtime.normalize) addresses a))
  kept_members ids a =
      contains-keep (λ m. not (contains users m)) (thread_participants runtime by_id [] ids) a
      ∙ ap (λ b. b && not (contains users a)) (members-takes_part ids a)
      ∙ ap (λ b. takes_part ids a && not b) (contains-users_of a)

  direct_thread-some :
      (t : Thread) (dm : DmThread)
      → direct_thread runtime users (thread_participants runtime by_id [] t.ids) t ≡ some dm
      → (agent : String) × (dm ≡ direct_dm t agent) × IsDirect t.ids agent
  unfolding direct_thread
  direct_thread-some t dm e =
      let members = thread_participants runtime by_id [] t.ids in
      elim (Bool-cases (any (contains users) members)) [
        | inr stranger ↦ absurd (cc (rw stranger at e))
        | inl user ↦ elim (Option-cases (only_one (keep (λ m. not (contains users m)) members))) [
          | inl several ↦ absurd (cc (rw several at (rw user at e)))
          | inr (agent, one) ↦ (
            agent,
            sym (some_eq (rw one at (rw user at e))),
            (
              (let (u, e1, e2) = any-contains users members user in
                  (u, sym (members-takes_part t.ids u) ∙ e1, sym (contains-users_of u) ∙ e2)),
              λ a.
                  sym (kept_members t.ids a)
                  ∙ ap (λ l. contains l a) (only_one-eq _ agent one)
                  ∙ contains-one agent a,
            ),
          )
        ]
      ]

  thread_participants-IsOnce :
      (acc ids : List String) → IsOnce acc → IsOnce (thread_participants runtime by_id acc ids)
  unfolding thread_participants
  thread_participants-IsOnce acc [] h = h
  thread_participants-IsOnce acc (id ∷ ids) h = elim (Option-cases (lookup id by_id)) [
    | inl missing ↦ rw missing (thread_participants-IsOnce acc ids h)
    | inr (m, found) ↦ rw found (
        thread_participants-IsOnce (add_all acc (participants_of (runtime.normalize) m)) ids
          (IsOnce-add_all acc (participants_of (runtime.normalize) m) h))
  ]

  IsDirect-direct_thread :
      (t : Thread) (agent : String)
      → IsDirect t.ids agent
      → direct_thread runtime users (thread_participants runtime by_id [] t.ids) t
        ≡ some (direct_dm t agent)
  unfolding direct_thread
  IsDirect-direct_thread t agent ((u, takes, named), others) =
      let members = thread_participants runtime by_id [] t.ids in
      let kept = keep (λ m. not (contains users m)) members in
      let user : any (contains users) members ≡ true =
        contains-any users members u (members-takes_part t.ids u ∙ takes)
          (contains-users_of u ∙ named) in
      let one : kept ≡ agent ∷ [] =
        IsOnce-one kept agent
          (IsOnce-keep (λ m. not (contains users m)) members
            (thread_participants-IsOnce [] t.ids tt))
          (λ a. kept_members t.ids a ∙ others a) in
      rw user (ap (λ l. dm_of t (only_one l)) one)

  direct_threads-AreDirect :
      (ts : List Thread) → AreDirect ts (direct_threads runtime by_id users ts)
  unfolding direct_threads
  direct_threads-AreDirect [] = refl
  direct_threads-AreDirect (t ∷ ts) =
      elim (Option-cases
        (direct_thread runtime users (thread_participants runtime by_id [] t.ids) t)) [
          | inl skipped ↦ rw skipped (
              inr (
                λ agent h. cc (sym skipped ∙ IsDirect-direct_thread t agent h),
                direct_threads-AreDirect ts,
              ))
          | inr (dm, e) ↦
              let (agent, same, is) = direct_thread-some t dm e in
              rw e (
                inl (
                  agent,
                  direct_threads runtime by_id users ts,
                  ap (λ d. d ∷ direct_threads runtime by_id users ts) same,
                  is,
                  direct_threads-AreDirect ts,
                ))
        ]

-- The direct threads are exactly those of the derived threads, in order, in which some participant is an
-- address of the user, and the participants who are not are one agent, which is the thread's. A
-- participant is who sends a message of the thread, or gets one, also as a copy.
pub derive_dm_threads-AreDirect :
    (runtime : Runtime) (fuel : ℕ) (messages : List ThreadMessage) (addresses : List String)
    (dms : List DmThread)
    → derive_dm_threads runtime fuel messages addresses ≡ some dms
    → (ts : List Thread) × (derive_threads runtime fuel messages ≡ some ts)
      × AreDirect runtime (index_messages [] messages) addresses ts dms
unfolding derive_dm_threads
derive_dm_threads-AreDirect runtime fuel messages addresses dms e =
    elim (Option-cases (derive_threads runtime fuel messages)) [
      | inl out ↦ absurd (cc (rw out at e))
      | inr (ts, derived) ↦ (
        ts,
        derived,
        subst (AreDirect runtime (index_messages [] messages) addresses ts)
            (some_eq (rw derived at e))
            (direct_threads-AreDirect runtime (index_messages [] messages) addresses ts),
      )
    ]
