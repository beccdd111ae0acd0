-- ===== src/Provision/Store/Sound.antt =====
-- The invariant of the store: its file reads back, and is never behind its map.
use workbench.Prelude.{
  ◌≡◌, ◌⊎◌, inl, inr, refl, ap, subst, String, ◌==◌, eq_iff, Option, none, some, true, false, all,
  [], arith, if◌then◌else◌, Dict, lookup, insert, values, lookup-insert, Bool-cases,
}
use workbench.Prelude.Action.{done, thrown}
use workbench.Provision.Store.{
  Allocation, Parsed, bad_json, bad_shape, rows, Codec, StoreHost, StoreFault, directory_failed,
  read_failed, Store, is_allocation_record, load_rows, finish_load, read_state, initialize,
}
use workbench.Provision.Store.Advance.{Advances, Advances-refl}
use workbench.Provision.Store.Table.{IsTable, IsTable-all, IsStorable, load_rows-values}

abbrev table_of : Parsed → Dict Allocation
table_of bad_json = []
table_of bad_shape = []
table_of (rows rs) = if all is_allocation_record rs then (load_rows [] rs).0 else []

module _ (c : Codec) where
  -- What the next start of the hub reads from the file.
  unfoldable pub recovered : Option (c.Contents) → Dict Allocation
  recovered none = []
  recovered (some contents) = table_of (c.decode contents)

  -- The records that answer a request: the map, or before the first request the file.
  unfoldable pub known : Store c → Dict Allocation
  known s = if s.initialized then s.memory else recovered s.disk

  abbrev pub IsFile : Option (c.Contents) → Type 0
  IsFile d = (d ≡ none) ⊎ ((m : Dict Allocation) × IsTable m × (d ≡ some (c.encode (values m))))

  pub record IsSound (s : Store c) : Type 0 where
    pub file : IsFile s.disk
    pub fresh : s.initialized ≡ false → s.memory ≡ []
    pub table : IsTable s.memory
    pub ahead :
        s.initialized ≡ true
        → (id : String) → Advances (lookup id s.memory) (lookup id (recovered s.disk))

  -- What is written for a well-formed table is read as that table.
  pub recovered-encode :
      (m : Dict Allocation) → IsTable m → recovered (some (c.encode (values m))) ≡ m
  unfolding recovered
  recovered-encode m t =
      rw (c.decode-encode (values m), IsTable-all m t) (ap (λ p. p.0) (load_rows-values m t))

  pub IsTable-recovered : (d : Option (c.Contents)) → IsFile d → IsTable (recovered d)
  unfolding recovered
  IsTable-recovered d (inl e) = rw e tt
  IsTable-recovered d (inr (m, t, e)) = rw (e, recovered-encode m t) t

  -- The store after a successful `initialize`.
  abbrev pub ready : Store c → Store c
  ready s = record s { memory = known s; initialized = true }

  abbrev pub Initialized : StoreHost → Store c → Type 0
  Initialized host s =
      (initialize c host s ≡ (done tt, ready s))
      ⊎ ((e : StoreFault) × (initialize c host s ≡ (thrown e, s)))

  load_lem :
      (s : Store c) (m : Dict Allocation)
      → IsTable m
      → s.memory ≡ []
      → finish_load c (load_rows s.memory (values m)) s
        ≡ (done tt, record s { memory = m; initialized = true })
  unfolding finish_load
  load_lem s m t f = rw (f, load_rows-values m t) refl

  pub read_state_lem :
      (d : Option (c.Contents)) (s : Store c)
      → IsFile d
      → s.memory ≡ []
      → read_state c d s ≡ (done tt, record s { memory = recovered d; initialized = true })
  unfolding read_state recovered
  read_state_lem d s (inl e) f = rw e (ground arith)
  read_state_lem d s (inr (m, t, e)) f =
      rw (e, recovered-encode m t)
        (rw (c.decode-encode (values m), IsTable-all m t) (load_lem s m t f))

  pub initialize_lem : (host : StoreHost) (s : Store c) → IsSound s → Initialized host s
  unfolding initialize known
  initialize_lem host s h = elim (Bool-cases s.initialized) [
    | inl up ↦ inl (simp up (ground arith))
    | inr down ↦ elim (Bool-cases host.directory_made) [
      | inr e ↦ inr (directory_failed, simp (down, e))
      | inl made ↦ elim (Bool-cases host.readable) [
        | inr e ↦ inr (read_failed, simp (down, made, e))
        | inl open' ↦ inl (simp (down, made, open') (read_state_lem s.disk s h.file (h.fresh down)))
      ]
    ]
  ]

  pub ready-IsSound : (s : Store c) → IsSound s → IsSound (ready s)
  unfolding known
  ready-IsSound s h = record {
    file = h.file;
    fresh = λ e. cc;
    table = elim (Bool-cases s.initialized) [
      | inl up ↦ rw up h.table
      | inr down ↦ rw down (IsTable-recovered s.disk h.file)
    ];
    ahead = λ _ id. elim (Bool-cases s.initialized) [
      | inl up ↦ rw up (h.ahead up id)
      | inr down ↦ rw down (Advances-refl _)
    ];
  }

  -- What an operation may do to a store that is ready: nothing; write a record that advances the
  -- one before, in the file and in the map; or, where the write throws after the rename, in the
  -- file alone.
  pub data Change (s u : Store c) : Type 0 where
    same : u ≡ s → Change s u
    stored :
        (r : Allocation)
        → IsStorable r
        → Advances (lookup r.allocation_id s.memory) (some r)
        → u ≡ record s {
          memory = insert r.allocation_id r s.memory;
          disk = some (c.encode (values (insert r.allocation_id r s.memory)));
        }
        → Change s u
    surfaced :
        (r : Allocation)
        → IsStorable r
        → Advances (lookup r.allocation_id s.memory) (some r)
        → u ≡ record s { disk = some (c.encode (values (insert r.allocation_id r s.memory))) }
        → Change s u

  pub insert-Advances :
      (m : Dict Allocation) (r : Allocation)
      → Advances (lookup r.allocation_id m) (some r)
      → (id : String) → Advances (lookup id m) (lookup id (insert r.allocation_id r m))
  insert-Advances m r a id =
      rw (lookup-insert r.allocation_id id r m) (elim (Bool-cases (r.allocation_id == id)) [
        | inl e ↦ rw e (subst (λ k. Advances (lookup k m) (some r)) ((eq_iff _ _).0 e) a)
        | inr e ↦ rw e (Advances-refl _)
      ])
