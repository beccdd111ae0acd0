-- ===== src/Provision/Store/Restart.antt =====
-- What a hub that starts again reads of the records that were written before
-- (apps/hub/src/provisioners/process.ts).
use workbench.Prelude.{
  inr, ◌∙◌, ◌≡◌, refl, ap, String, ◌==◌, true, false, some, [], if◌then◌else◌, Dict, lookup, insert,
  values, lookup-insert,
}
use workbench.Prelude.Action.{done, thrown}
use workbench.Provision.Store.{
  Codec, Allocation, Store, StoreHost, Write, written, write_failed, sync_failed, persist_failed,
  persist, commit, initialize,
}
use workbench.Provision.Store.Table.{IsTable, IsStorable, IsTable-insert}
use workbench.Provision.Store.Sound.{IsSound, recovered-encode, read_state_lem}

module _ (c : Codec) where
  abbrev pub restarted : Store c → Store c
  restarted s = record s { memory = []; initialized = false }

  -- The hub starts again on what the store has left, reads its file, and then knows these records.
  abbrev pub Rereads : StoreHost → Store c → Dict Allocation → Type 0
  Rereads host s m =
      initialize c host (restarted s) ≡ (done tt, record s { memory = m; initialized = true })

  reread_table :
      (host : StoreHost) (s : Store c) (m : Dict Allocation)
      → host.directory_made ≡ true
      → host.readable ≡ true
      → IsTable m
      → Rereads host (record s { disk = some (c.encode (values m)) }) m
  unfolding initialize
  reread_table host s m made readable t =
      let file = some (c.encode (values m)) in
      rw (made, readable)
        (read_state_lem c file (restarted (record s { disk = file })) (inr (m, t, refl)) refl
          ∙ ap (λ n. (done tt, record s { memory = n; initialized = true; disk = file }))
              (recovered-encode c m t))

  -- Of a record that was given to the store, with how the write ended: what the caller got, and what the hub
  -- knows after it has started again
  abbrev pub IsKept : Write → StoreHost → Allocation → Store c → Type 0
  IsKept written host r s =
      ((commit c written r.allocation_id r s).0 ≡ done tt)
      × (m : Dict Allocation) × Rereads host (commit c written r.allocation_id r s).1 m
      × (m ≡ (commit c written r.allocation_id r s).1.memory)
      × ((id : String)
          → lookup id m ≡ (if r.allocation_id == id then some r else lookup id s.memory))
  IsKept sync_failed host r s =
      ((commit c sync_failed r.allocation_id r s).0 ≡ thrown persist_failed)
      × (m : Dict Allocation) × Rereads host (commit c sync_failed r.allocation_id r s).1 m
      × ((commit c sync_failed r.allocation_id r s).1.memory ≡ s.memory)
      × ((id : String)
          → lookup id m ≡ (if r.allocation_id == id then some r else lookup id s.memory))
  IsKept write_failed host r s =
      commit c write_failed r.allocation_id r s ≡ (thrown persist_failed, s)

  -- Of a record without empty texts that is committed to a sound store, and a hub that starts again where
  -- the file can be read. If the write works, the commit returns, and the hub reads back what the store
  -- knew in memory: that record, and every other record as it was. If the directory cannot be synced after
  -- the file was replaced, the commit throws and the memory is as before, but the hub then reads back
  -- that record and every other as it was. If the file cannot be written, the commit throws and nothing
  -- is changed.
  pub commit-IsKept :
      (write : Write) (host : StoreHost) (r : Allocation) (s : Store c)
      → host.directory_made ≡ true
      → host.readable ≡ true
      → IsStorable r
      → IsSound c s
      → IsKept write host r s
  unfolding commit persist
  commit-IsKept written host r s made readable ok h =
      let m = insert r.allocation_id r s.memory in
      (
        refl,
        m,
        reread_table host (record s { memory = m }) m made readable
            (IsTable-insert r.allocation_id r s.memory refl ok h.table),
        refl,
        λ id. lookup-insert r.allocation_id id r s.memory,
      )
  commit-IsKept sync_failed host r s made readable ok h =
      let m = insert r.allocation_id r s.memory in
      (
        refl,
        m,
        reread_table host s m made readable
            (IsTable-insert r.allocation_id r s.memory refl ok h.table),
        refl,
        λ id. lookup-insert r.allocation_id id r s.memory,
      )
  commit-IsKept write_failed host r s made readable ok h = refl
