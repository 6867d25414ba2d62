-- ===== src/Server/Inbox/Known.antt =====
-- The envelopes that `device_reads` speaks of (server/src/inbox.ts, `zapomnijOsierocone`).
use mekamb_chat.Common.{
  ℕ, suc, ◌≤◌, ◌<◌, ◌≡◌, refl, ◌∙◌, String, Bool, true, false, not, List, [], ◌∷◌, ◌++◌, Option,
  arith, ltb, ◌==◌, if◌then◌else◌, length, filter, any, All, All-mono, count, any-append,
  filter-append, Bool-cases, inl, inr,
}
use mekamb_chat.Server.Inbox.{
  Inbox, Envelope, Read, Socket, Message, has_read, register_device, is_live, forget_orphans,
  clean_up, acknowledge, enqueue, schedule_cleanup, deposit, pending, connect, obey, receive,
  drop_silent, drop_expired, renew_alarm, alarm, max_envelope_bytes,
}
use mekamb_chat.Server.Inbox.Wire.{text, binary, Command, ping, ack, other, parse_command}
use mekamb_chat.Server.Inbox.Invariant.{Inv, Ascending, if_case}
use mekamb_chat.Server.Inbox.Acknowledge.{count_pos, touch-is_counted}

abbrev pub in_queue : List Envelope → ℕ → Bool
in_queue q i = any (λ e. e.id == i) q

abbrev pub Known : List Envelope → List Read → Type 0
Known q rs = All (λ r. in_queue q r.envelope_id ≡ true) rs

Known-forget :
    (q : List Envelope) (rs : List Read) → Known q (filter (λ r. in_queue q r.envelope_id) rs)
Known-forget q [] = tt
Known-forget q (r ∷ rs) = elim (Bool-cases (in_queue q r.envelope_id)) [
  | inl e ↦ rw e (e, Known-forget q rs)
  | inr e ↦ rw e (Known-forget q rs)
]

Known-append : (q q' : List Envelope) (rs : List Read) → Known q rs → Known (q ++ q') rs
Known-append q q' rs =
    All-mono _ _ rs (λ r h. any-append (λ e. e.id == r.envelope_id) q q' ∙ rw h refl)

pub record IsKnown (s : Inbox) : Type 0 where
  pub known : Known s.queue s.reads

pub forget_orphans-IsKnown : (s : Inbox) → IsKnown (forget_orphans s)
unfolding forget_orphans
forget_orphans-IsKnown s = record { known = Known-forget s.queue s.reads }

clean_up-IsKnown : (s : Inbox) (now : ℕ) → IsKnown s → IsKnown (clean_up s now)
unfolding clean_up
clean_up-IsKnown s now h =
    if_case IsKnown (count (is_live now) s.devices == 0) _ _ h (forget_orphans-IsKnown _)

-- The device that acknowledges counts, so that the orphans are forgotten then.
pub acknowledge-IsKnown :
    (s : Inbox) (i : ℕ) (d : String) (now : ℕ) → IsKnown (acknowledge s i d now)
unfolding acknowledge register_device clean_up
acknowledge-IsKnown s i d now =
    rw (count_pos now d _ (touch-is_counted now d s.devices)) (forget_orphans-IsKnown _)

enqueue-IsKnown :
    (s : Inbox) (bytes : List ℕ) (now : ℕ)
    → IsKnown s
    → IsKnown (schedule_cleanup (enqueue s bytes now) now)
unfolding enqueue schedule_cleanup
enqueue-IsKnown s bytes now h = record { known = Known-append s.queue _ s.reads h.known }

pub deposit-IsKnown :
    (s : Inbox) (ws : List Socket) (bytes : List ℕ) (now : ℕ)
    → IsKnown s
    → IsKnown (deposit s ws bytes now).state
unfolding deposit
deposit-IsKnown s ws bytes now h = elim (Bool-cases (ltb max_envelope_bytes (length bytes))) [
  | inl e ↦ rw e h
  | inr e ↦ rw e (enqueue-IsKnown s bytes now h)
]

pub connect-IsKnown :
    (s : Inbox) (upgrade : Bool) (d : Option String) (handle now : ℕ)
    → IsKnown s
    → IsKnown (connect s upgrade d handle now).state
unfolding connect register_device
connect-IsKnown s true d handle now h = record { known = h.known }
connect-IsKnown s false d handle now h = h

obey-IsKnown :
    (s : Inbox) (w : Socket) (now : ℕ) (c : Command) → IsKnown s → IsKnown (obey s w now c).0
unfolding obey
obey-IsKnown s w now ping h = h
obey-IsKnown s w now (ack id) h = acknowledge-IsKnown s id _ now
obey-IsKnown s w now other h = h

pub receive-IsKnown :
    (s : Inbox) (w : Socket) (m : Message) (now : ℕ) → IsKnown s → IsKnown (receive s w m now).0
unfolding receive
receive-IsKnown s w binary now h = h
receive-IsKnown s w (text cs) now h = obey-IsKnown s w now (parse_command cs) h

renew_alarm-IsKnown : (s : Inbox) (now : ℕ) → IsKnown s → IsKnown (renew_alarm s now)
unfolding renew_alarm
renew_alarm-IsKnown s now h = if_case IsKnown _ _ _ h (record { known = h.known })

pub alarm-IsKnown : (s : Inbox) (now : ℕ) → IsKnown (alarm s now)
unfolding alarm
alarm-IsKnown s now = renew_alarm-IsKnown (forget_orphans kept) now (forget_orphans-IsKnown kept)
  where
    kept : Inbox
    kept = drop_expired (clean_up (drop_silent s now) now) now

-- A number above those of the queue has been read by nobody.
Ascending-le : (lo hi : ℕ) (q : List Envelope) → Ascending lo q hi → lo ≤ hi
Ascending-le lo hi [] a = a
Ascending-le lo hi (e ∷ es) a = omega (arith, Ascending-le e.id hi es a.1)

in_queue_above :
    (lo hi i : ℕ) (q : List Envelope) → Ascending lo q hi → hi < i → in_queue q i ≡ false
in_queue_above lo hi i [] a h = refl
in_queue_above lo hi i (e ∷ es) a h =
    ground (arith, in_queue_above e.id hi i es a.1 h, Ascending-le e.id hi es a.1)

has_read_unknown :
    (d : String) (i : ℕ) (q : List Envelope) (rs : List Read)
    → Known q rs
    → in_queue q i ≡ false
    → has_read d i rs ≡ false
has_read_unknown d i q [] k h = refl
has_read_unknown d i q (r ∷ rs) k h = ground (arith, has_read_unknown d i q rs k.1 h, seen_id)
  where
    seen_id : r.envelope_id ≡ i → in_queue q r.envelope_id ≡ false
    seen_id e = rw e h

-- Where the tables are well formed and hold reads of queued envelopes only, a deposit within the
-- size limit puts one envelope at the end of every device's backlog; a larger one leaves every
-- backlog as it is.
pub pending-deposit :
    (s : Inbox) (ws : List Socket) (bytes : List ℕ) (now : ℕ) (d : String)
    → Inv s
    → IsKnown s
    → pending (deposit s ws bytes now).state d ≡ (
        if ltb max_envelope_bytes (length bytes)
        then pending s d
        else pending s d ++ record { id = suc s.sequence; bytes = bytes; created_at = now } ∷ [])
unfolding deposit enqueue schedule_cleanup pending
pending-deposit s ws bytes now d v k = elim (Bool-cases (ltb max_envelope_bytes (length bytes))) [
  | inl e ↦ rw e refl
  | inr e ↦ rw (e, filter-append (λ x. not (has_read d x.id s.reads)) s.queue _) (rw fresh refl)
]
  where
    fresh : has_read d (suc s.sequence) s.reads ≡ false
    fresh =
        has_read_unknown d (suc s.sequence) s.queue s.reads k.known
          (in_queue_above 0 s.sequence (suc s.sequence) s.queue v.ascending (omega arith))
