-- ===== src/Threads/Partition.antt =====
-- Every message ends up in one thread.
use mathlib.Core.List.{Perm, perm_append_comm}
use mathlib.Core.List.Perm
use workbench.Prelude.{
  some_eq, ℕ, ◌<◌, ◌≡◌, refl, sym, ap, ◌∙◌, subst, String, ◌==◌, Option, none, some, List, [], ◌∷◌,
  ◌++◌, append_assoc, append-nil, map, Dict, lookup, insert, values, All, Bool-cases, Option-cases,
  inl, inr,
}
use workbench.Threads.{ThreadMessage, message_ids, parents, root_of}
use workbench.Threads.Roots.{root_of-ends}
use workbench.Threads.Grouping.{
  Runtime, Group, Thread, joined, group_by_root, key_of, merged_group, place_group, thread_of,
  merge_groups, merged_threads, threads_of, derive_threads,
}

module _ {A : Type 0} where
  -- An addition in the middle comes last.
  addition_last : (xs extra ys : List A) → Perm ((xs ++ extra) ++ ys) ((xs ++ ys) ++ extra)
  addition_last xs extra ys =
      subst (λ l. Perm l ((xs ++ ys) ++ extra)) (sym (append_assoc xs extra ys))
        (subst (λ l. Perm (xs ++ (extra ++ ys)) l) (sym (append_assoc xs ys extra))
          (Perm.append (Perm.refl xs) (perm_append_comm extra ys)))

  perm_of : {xs ys : List A} → xs ≡ ys → Perm xs ys
  perm_of {xs} e = subst (Perm xs) e (Perm.refl xs)

message_ids-append :
    (ms ns : List ThreadMessage) → message_ids (ms ++ ns) ≡ message_ids ms ++ message_ids ns
message_ids-append [] ns = refl
message_ids-append (m ∷ ms) ns = ap (λ l. m.message_id ∷ l) (message_ids-append ms ns)

abbrev group_ids : List Group → List String
group_ids [] = []
group_ids (g ∷ gs) = message_ids g.members ++ group_ids gs

abbrev dict_ids : Dict Group → List String
dict_ids [] = []
dict_ids ((key, g) ∷ d) = message_ids g.members ++ dict_ids d

abbrev held_ids : Option Group → List String
held_ids none = []
held_ids (some g) = message_ids g.members

-- Replacing a group by one with more messages adds just those.
insert-ids :
    (key : String) (g : Group) (extra : List String) (d : Dict Group)
    → message_ids g.members ≡ held_ids (lookup key d) ++ extra
    → Perm (dict_ids (insert key g d)) (dict_ids d ++ extra)
unfolding lookup insert
insert-ids key g extra [] more = perm_of (append-nil (message_ids g.members) ∙ more)
insert-ids key g extra ((held, old) ∷ d) more = elim (Bool-cases (held == key)) [
  | inl same ↦ rw same (
      subst (λ l. Perm (l ++ dict_ids d) ((message_ids old.members ++ dict_ids d) ++ extra))
        (sym (rw same at more)) (addition_last (message_ids old.members) extra (dict_ids d)))
  | inr other ↦ rw other (
      Perm.trans
        (Perm.append (Perm.refl (message_ids old.members))
          (insert-ids key g extra d (rw other at more)))
        (perm_of (sym (append_assoc (message_ids old.members) (dict_ids d) extra))))
]

joined-ids :
    (o : Option Group) (m : ThreadMessage)
    → message_ids (joined o m).members ≡ held_ids o ++ m.message_id ∷ []
joined-ids none m = refl
joined-ids (some g) m = message_ids-append g.members (m ∷ [])

group_by_root-ids :
    (parent : Dict String) (fuel : ℕ) (groups after : Dict Group) (ms : List ThreadMessage)
    → group_by_root parent fuel groups ms ≡ some after
    → Perm (dict_ids after) (dict_ids groups ++ message_ids ms)
unfolding group_by_root
group_by_root-ids parent fuel groups after [] e =
    perm_of (ap dict_ids (sym (some_eq e)) ∙ sym (append-nil (dict_ids groups)))
group_by_root-ids parent fuel groups after (m ∷ ms) e =
    elim (Option-cases (root_of parent fuel m.message_id)) [
      | inl out ↦ absurd (cc (rw (out, group_by_root) at e))
      | inr (root, found) ↦
          let grown = joined (lookup root groups) m in
          Perm.trans
            (group_by_root-ids parent fuel (insert root grown groups) after ms
              (rw (found, group_by_root) at e))
            (Perm.trans
              (Perm.append
                (insert-ids root grown (m.message_id ∷ []) groups
                  (joined-ids (lookup root groups) m))
                (Perm.refl (message_ids ms)))
              (perm_of (append_assoc (dict_ids groups) (m.message_id ∷ []) (message_ids ms))))
    ]

merged_group-ids :
    (o : Option Group) (g : Group) (runtime : Runtime)
    → message_ids (merged_group runtime o g).members ≡ held_ids o ++ message_ids g.members
merged_group-ids none g runtime = refl
merged_group-ids (some old) g runtime = message_ids-append old.members g.members

abbrev all_ids : Dict Group × List Group → List String
all_ids (merged, solo) = dict_ids merged ++ group_ids solo

group_ids-append : (gs hs : List Group) → group_ids (gs ++ hs) ≡ group_ids gs ++ group_ids hs
group_ids-append [] hs = refl
group_ids-append (g ∷ gs) hs =
    ap (λ l. message_ids g.members ++ l) (group_ids-append gs hs)
    ∙ sym (append_assoc (message_ids g.members) (group_ids gs) (group_ids hs))

abbrev pub thread_ids : List Thread → List String
thread_ids [] = []
thread_ids (t ∷ ts) = t.ids ++ thread_ids ts

module _ (runtime : Runtime) where
  place_group-ids :
      (o : Option String) (g : Group) (acc : Dict Group × List Group)
      → Perm (all_ids (place_group runtime o g acc)) (all_ids acc ++ message_ids g.members)
  place_group-ids none g (merged, solo) = perm_of (
      ap (λ l. dict_ids merged ++ l)
        (group_ids-append solo (g ∷ [])
          ∙ ap (λ l. group_ids solo ++ l) (append-nil (message_ids g.members)))
      ∙ sym (append_assoc (dict_ids merged) (group_ids solo) (message_ids g.members)))
  place_group-ids (some key) g (merged, solo) =
      Perm.trans
        (Perm.append
          (insert-ids key (merged_group runtime (lookup key merged) g) (message_ids g.members)
            merged (merged_group-ids (lookup key merged) g runtime))
          (Perm.refl (group_ids solo)))
        (addition_last (dict_ids merged) (message_ids g.members) (group_ids solo))

  merge_groups-ids :
      (gs : List Group) (acc : Dict Group × List Group)
      → Perm (all_ids (merge_groups runtime gs acc)) (all_ids acc ++ group_ids gs)
  unfolding merge_groups
  merge_groups-ids [] acc = perm_of (sym (append-nil (all_ids acc)))
  merge_groups-ids (g ∷ gs) acc =
      Perm.trans (merge_groups-ids gs (place_group runtime (key_of runtime g) g acc)) (
        Perm.trans
          (Perm.append (place_group-ids (key_of runtime g) g acc) (Perm.refl (group_ids gs)))
          (perm_of (append_assoc (all_ids acc) (message_ids g.members) (group_ids gs))))

  merged_threads-ids :
      (d : Dict Group) (ts : List Thread)
      → thread_ids (merged_threads runtime d ++ ts) ≡ dict_ids d ++ thread_ids ts
  unfolding merged_threads
  merged_threads-ids [] ts = refl
  merged_threads-ids ((key, g) ∷ d) ts =
      ap (λ l. message_ids g.members ++ l) (merged_threads-ids d ts)
      ∙ sym (append_assoc (message_ids g.members) (dict_ids d) (thread_ids ts))

  solo_threads-ids : (gs : List Group) → thread_ids (map (thread_of runtime "") gs) ≡ group_ids gs
  solo_threads-ids [] = refl
  solo_threads-ids (g ∷ gs) = ap (λ l. message_ids g.members ++ l) (solo_threads-ids gs)

  threads_of-ids :
      (acc : Dict Group × List Group) → thread_ids (threads_of runtime acc) ≡ all_ids acc
  unfolding threads_of
  threads_of-ids (merged, solo) =
      merged_threads-ids merged (map (thread_of runtime "") solo)
      ∙ ap (λ l. dict_ids merged ++ l) (solo_threads-ids solo)

  values-ids : (d : Dict Group) → group_ids (values d) ≡ dict_ids d
  values-ids [] = refl
  values-ids ((key, g) ∷ d) = ap (λ l. message_ids g.members ++ l) (values-ids d)

  grouped-ids :
      (groups : Dict Group)
      → Perm
          (thread_ids (threads_of runtime (merge_groups runtime (values groups) ([], []))))
          (dict_ids groups)
  grouped-ids groups =
      Perm.trans (perm_of (threads_of-ids (merge_groups runtime (values groups) ([], []))))
        (Perm.trans (merge_groups-ids (values groups) ([], [])) (perm_of (values-ids groups)))

module _ (parent : Dict String) (rank : String → ℕ) (fuel : ℕ)
    (falls : (child p : String) → lookup child parent ≡ some p → rank p < rank child) where
  grouped :
      (groups : Dict Group) (ms : List ThreadMessage)
      → All (λ m. rank m.message_id < fuel) ms
      → (after : Dict Group) × (group_by_root parent fuel groups ms ≡ some after)
  unfolding group_by_root
  grouped groups [] low = (groups, refl)
  grouped groups (m ∷ ms) (here, low) =
      let (root, found, top) = root_of-ends parent rank fuel m.message_id falls here in
      rw (found, group_by_root)
        (grouped (insert root (joined (lookup root groups) m) groups) ms low)

-- Where every parent is of a smaller rank than its child, and the fuel is above the rank of every
-- message, the threads are derived, and the ids of all threads together are the ids of the
-- messages, in some order: no message is lost, and none is in two threads.
pub derive_threads-Perm :
    (runtime : Runtime) (rank : String → ℕ) (fuel : ℕ) (messages : List ThreadMessage)
    → ((child p : String) → lookup child (parents messages) ≡ some p → rank p < rank child)
    → All (λ m. rank m.message_id < fuel) messages
    → (threads : List Thread) × (derive_threads runtime fuel messages ≡ some threads)
      × Perm (thread_ids threads) (message_ids messages)
unfolding derive_threads
derive_threads-Perm runtime rank fuel messages falls low =
    let (groups, e) = grouped (parents messages) rank fuel falls [] messages low in
    (
      threads_of runtime (merge_groups runtime (values groups) ([], [])),
      rw e refl,
      Perm.trans (grouped-ids runtime groups)
          (group_by_root-ids (parents messages) fuel [] groups messages e),
    )
