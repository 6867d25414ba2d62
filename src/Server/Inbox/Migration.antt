-- ===== src/Server/Inbox/Migration.antt =====
-- The moving of the old cursors into the present tables (server/src/inbox.ts, `przeniesKursory`).
use mekamb_chat.Common.{List, [], ◌∷◌, leb, text_eqb, any, Bool-cases, Option-cases, inl, inr}
use mekamb_chat.Server.Inbox.{
  Inbox, Envelope, Device, Read, Cursor, migrate_devices, read_below, migrate_reads,
  migrate_cursors,
}
use mekamb_chat.Server.Inbox.Counting.{UniqueReads}
use mekamb_chat.Server.Inbox.Invariant.{
  UniqueDevices, Inv, insert_read-UniqueReads, UniqueDevices-append,
}

migrate_devices-UniqueDevices :
    (cs : List Cursor) (us : List Device) → UniqueDevices us → UniqueDevices (migrate_devices cs us)
migrate_devices-UniqueDevices [] us h = h
migrate_devices-UniqueDevices (c ∷ cs) us h =
    elim (Bool-cases (any (λ u. text_eqb u.device_id c.cursor_device) us)) [
      | inl e ↦ rw e (migrate_devices-UniqueDevices cs us h)
      | inr e ↦ rw e (migrate_devices-UniqueDevices cs _ (UniqueDevices-append us _ e h))
    ]

read_below-UniqueReads :
    (c : Cursor) (es : List Envelope) (rs : List Read)
    → UniqueReads rs
    → UniqueReads (read_below c es rs)
read_below-UniqueReads c [] rs h = h
read_below-UniqueReads c (e ∷ es) rs h = elim (Bool-cases (leb e.id c.last_id)) [
  | inl p ↦ rw p (read_below-UniqueReads c es _ (insert_read-UniqueReads c.cursor_device e.id rs h))
  | inr p ↦ rw p (read_below-UniqueReads c es rs h)
]

migrate_reads-UniqueReads :
    (cs : List Cursor) (q : List Envelope) (rs : List Read)
    → UniqueReads rs
    → UniqueReads (migrate_reads cs q rs)
migrate_reads-UniqueReads [] q rs h = h
migrate_reads-UniqueReads (c ∷ cs) q rs h =
    migrate_reads-UniqueReads cs q _ (read_below-UniqueReads c q rs h)

pub migrate_cursors-Inv : (s : Inbox) → Inv s → Inv (migrate_cursors s)
unfolding migrate_cursors
migrate_cursors-Inv s v = elim (Option-cases s.cursors) [
  | inl e ↦ rw (e, migrate_cursors) v
  | inr (cs, e) ↦
      rw (e, migrate_cursors)
        (record {
          ascending = v.ascending;
          devices_unique = migrate_devices-UniqueDevices cs s.devices v.devices_unique;
          reads_unique = migrate_reads-UniqueReads cs s.queue s.reads v.reads_unique;
        })
]
