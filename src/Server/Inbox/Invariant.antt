-- ===== src/Server/Inbox/Invariant.antt =====
-- The well-formedness of the tables of the mailbox (server/src/inbox.ts) and its operations.
use mekamb_chat.Common.{
  ℕ, suc, ◌≤◌, ◌<◌, ◌≡◌, refl, String, Bool, true, false, ◌&&◌, List, [], ◌∷◌, ◌++◌, Option, arith,
  ltb, ◌==◌, if◌then◌else◌, text_eqb, length, filter, any, any-filter, any-append, Bool-cases, inl,
  inr, ◌∙◌,
}
use mekamb_chat.Server.Inbox.{
  Inbox, Envelope, Device, Read, Socket, has_read, insert_read, touch, register_device,
  forget_orphans, max_envelope_bytes, obey, drop_silent, drop_expired, renew_alarm, clean_up,
  acknowledge, enqueue, schedule_cleanup, deposit, connect, receive, alarm, empty_inbox,
}
use mekamb_chat.Server.Inbox.Counting.{UniqueReads}
use mekamb_chat.Server.Inbox.Wire.{Message, text, binary, Command, ping, ack, other, parse_command}

-- The ids of a queue rise from above `lo` to `hi` at most.
abbrev pub Ascending : ℕ → List Envelope → ℕ → Type 0
Ascending lo [] hi = lo ≤ hi
Ascending lo (e ∷ es) hi = (lo < e.id) × Ascending e.id es hi

abbrev pub UniqueDevices : List Device → Type 0
UniqueDevices [] = Unit {0}
UniqueDevices (u ∷ us) = (any (λ v. text_eqb v.device_id u.device_id) us ≡ false) × UniqueDevices us

pub record Inv (s : Inbox) : Type 0 where
  pub ascending : Ascending 0 s.queue s.sequence
  pub devices_unique : UniqueDevices s.devices
  pub reads_unique : UniqueReads s.reads

Ascending-down :
    (lo lo' hi : ℕ) (es : List Envelope) → lo ≤ lo' → Ascending lo' es hi → Ascending lo es hi
Ascending-down lo lo' hi [] h a = omega arith
Ascending-down lo lo' hi (e ∷ es) h a = (omega arith, a.1)

pub Ascending-filter :
    (p : Envelope → Bool) (lo hi : ℕ) (es : List Envelope)
    → Ascending lo es hi
    → Ascending lo (filter p es) hi
Ascending-filter p lo hi [] a = a
Ascending-filter p lo hi (e ∷ es) a =
    ground (arith, Ascending-filter p e.id hi es a.1, Ascending-down lo e.id hi (filter p es))

Ascending-append :
    (lo hi : ℕ) (es : List Envelope) (e : Envelope)
    → e.id ≡ suc hi
    → Ascending lo es hi
    → Ascending lo (es ++ e ∷ []) (suc hi)
Ascending-append lo hi [] e h a = (omega arith, omega arith)
Ascending-append lo hi (x ∷ es) e h a = (a.0, Ascending-append x.id hi es e h a.1)

pub UniqueReads-filter :
    (p : Read → Bool) (rs : List Read) → UniqueReads rs → UniqueReads (filter p rs)
UniqueReads-filter p [] h = tt
UniqueReads-filter p (r ∷ rs) h = elim (Bool-cases (p r)) [
  | inl e ↦ rw e (any-filter _ p rs h.0, UniqueReads-filter p rs h.1)
  | inr e ↦ rw e (UniqueReads-filter p rs h.1)
]

UniqueDevices-filter :
    (p : Device → Bool) (us : List Device) → UniqueDevices us → UniqueDevices (filter p us)
UniqueDevices-filter p [] h = tt
UniqueDevices-filter p (u ∷ us) h = elim (Bool-cases (p u)) [
  | inl e ↦ rw e (any-filter _ p us h.0, UniqueDevices-filter p us h.1)
  | inr e ↦ rw e (UniqueDevices-filter p us h.1)
]

-- A row is new at the end of the table if its key is not there.
pub UniqueReads-append :
    (rs : List Read) (d : String) (i : ℕ)
    → has_read d i rs ≡ false
    → UniqueReads rs
    → UniqueReads (rs ++ record { reader = d; envelope_id = i } ∷ [])
UniqueReads-append [] d i h u = (refl, tt)
UniqueReads-append (r ∷ rs) d i h u = (
  rw (any-append (λ x. text_eqb x.reader r.reader && x.envelope_id == r.envelope_id) rs _)
      (ground arith),
  UniqueReads-append rs d i (ground arith) u.1,
)

pub insert_read-UniqueReads :
    (d : String) (i : ℕ) (rs : List Read) → UniqueReads rs → UniqueReads (insert_read d i rs)
insert_read-UniqueReads d i rs u = elim (Bool-cases (has_read d i rs)) [
  | inl e ↦ rw e u
  | inr e ↦ rw e (UniqueReads-append rs d i e u)
]

pub UniqueDevices-append :
    (us : List Device) (v : Device)
    → any (λ u. text_eqb u.device_id v.device_id) us ≡ false
    → UniqueDevices us
    → UniqueDevices (us ++ v ∷ [])
UniqueDevices-append [] v h u = (refl, tt)
UniqueDevices-append (x ∷ us) v h u = (
  rw (any-append (λ y. text_eqb y.device_id x.device_id) us (v ∷ [])) (ground arith),
  UniqueDevices-append us v (ground arith) u.1,
)

any-touch :
    (d c : String) (now : ℕ) (us : List Device)
    → text_eqb d c ≡ false
    → any (λ v. text_eqb v.device_id c) (touch d now us) ≡ any (λ v. text_eqb v.device_id c) us
unfolding touch
any-touch d c now [] h = ground arith
any-touch d c now (u ∷ us) h = ground (arith, any-touch d c now us h)

touch-UniqueDevices :
    (d : String) (now : ℕ) (us : List Device) → UniqueDevices us → UniqueDevices (touch d now us)
unfolding touch
touch-UniqueDevices d now [] h = (refl, tt)
touch-UniqueDevices d now (u ∷ us) h = elim (Bool-cases (text_eqb u.device_id d)) [
  | inl e ↦ rw e h
  | inr e ↦
      rw e (any-touch d u.device_id now us (ground arith) ∙ h.0, touch-UniqueDevices d now us h.1)
]

register_device-Inv : (s : Inbox) (d : String) (now : ℕ) → Inv s → Inv (register_device s d now)
unfolding register_device
register_device-Inv s d now v = record {
  ascending = v.ascending;
  devices_unique = touch-UniqueDevices d now s.devices v.devices_unique;
  reads_unique = v.reads_unique;
}

forget_orphans-Inv : (s : Inbox) → Inv s → Inv (forget_orphans s)
unfolding forget_orphans
forget_orphans-Inv s v = record {
  ascending = v.ascending;
  devices_unique = v.devices_unique;
  reads_unique = UniqueReads-filter _ s.reads v.reads_unique;
}

keep-Inv : (s : Inbox) (p : Envelope → Bool) → Inv s → Inv (record s { queue = filter p s.queue })
keep-Inv s p v = record {
  ascending = Ascending-filter p 0 s.sequence s.queue v.ascending;
  devices_unique = v.devices_unique;
  reads_unique = v.reads_unique;
}

pub if_case {ℓ} : (P : Inbox → Type ℓ) (b : Bool) (s t : Inbox) → P s → P t → P (if b then s else t)
if_case P true s t p q = p
if_case P false s t p q = q

clean_up-Inv : (s : Inbox) (now : ℕ) → Inv s → Inv (clean_up s now)
unfolding clean_up
clean_up-Inv s now v = if_case Inv _ _ _ v (forget_orphans-Inv _ (keep-Inv s _ v))

pub acknowledge-Inv :
    (s : Inbox) (i : ℕ) (d : String) (now : ℕ) → Inv s → Inv (acknowledge s i d now)
unfolding acknowledge register_device
acknowledge-Inv s i d now v = clean_up-Inv _ now (record {
  ascending = v.ascending;
  devices_unique = touch-UniqueDevices d now s.devices v.devices_unique;
  reads_unique = insert_read-UniqueReads d i s.reads v.reads_unique;
})

enqueue-Inv :
    (s : Inbox) (bytes : List ℕ) (now : ℕ)
    → Inv s
    → Inv (schedule_cleanup (enqueue s bytes now) now)
unfolding enqueue schedule_cleanup
enqueue-Inv s bytes now v = record {
  ascending = Ascending-append 0 s.sequence s.queue _ refl v.ascending;
  devices_unique = v.devices_unique;
  reads_unique = v.reads_unique;
}

pub deposit-Inv :
    (s : Inbox) (ws : List Socket) (bytes : List ℕ) (now : ℕ)
    → Inv s
    → Inv (deposit s ws bytes now).state
unfolding deposit
deposit-Inv s ws bytes now v = elim (Bool-cases (ltb max_envelope_bytes (length bytes))) [
  | inl e ↦ rw e v
  | inr e ↦ rw e (enqueue-Inv s bytes now v)
]

pub connect-Inv :
    (s : Inbox) (upgrade : Bool) (d : Option String) (handle now : ℕ)
    → Inv s
    → Inv (connect s upgrade d handle now).state
unfolding connect
connect-Inv s true d handle now v = register_device-Inv s _ now v
connect-Inv s false d handle now v = v

obey-Inv : (s : Inbox) (w : Socket) (now : ℕ) (c : Command) → Inv s → Inv (obey s w now c).0
unfolding obey
obey-Inv s w now ping v = v
obey-Inv s w now (ack id) v = acknowledge-Inv s id _ now v
obey-Inv s w now other v = v

pub receive-Inv :
    (s : Inbox) (w : Socket) (m : Message) (now : ℕ) → Inv s → Inv (receive s w m now).0
unfolding receive
receive-Inv s w binary now v = v
receive-Inv s w (text cs) now v = obey-Inv s w now (parse_command cs) v

pub drop_silent-Inv : (s : Inbox) (now : ℕ) → Inv s → Inv (drop_silent s now)
unfolding drop_silent
drop_silent-Inv s now v = record {
  ascending = v.ascending;
  devices_unique = UniqueDevices-filter _ s.devices v.devices_unique;
  reads_unique = UniqueReads-filter _ s.reads v.reads_unique;
}

drop_expired-Inv : (s : Inbox) (now : ℕ) → Inv s → Inv (drop_expired s now)
unfolding drop_expired
drop_expired-Inv s now v = keep-Inv s _ v

renew_alarm-Inv : (s : Inbox) (now : ℕ) → Inv s → Inv (renew_alarm s now)
unfolding renew_alarm
renew_alarm-Inv s now v = if_case Inv _ _ _ v (record {
  ascending = v.ascending;
  devices_unique = v.devices_unique;
  reads_unique = v.reads_unique;
})

pub alarm-Inv : (s : Inbox) (now : ℕ) → Inv s → Inv (alarm s now)
unfolding alarm
alarm-Inv s now v =
    renew_alarm-Inv _ now
      (forget_orphans-Inv _ (drop_expired-Inv _ now (clean_up-Inv _ now (drop_silent-Inv s now v))))

pub empty_inbox-Inv : Inv empty_inbox
unfolding empty_inbox
empty_inbox-Inv = record { ascending = omega arith; devices_unique = tt; reads_unique = tt }
