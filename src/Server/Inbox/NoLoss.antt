-- ===== src/Server/Inbox/NoLoss.antt =====
-- Envelopes that wait for a device, over histories of the mailbox (server/src/inbox.ts).
use mathlib.Core.List.{Mem}
use mekamb_chat.Common.{
  ℕ, ◌+◌, ◌≤◌, ◌≡◌, refl, ◌∙◌, String, Bool, true, false, not, ◌&&◌, List, [], ◌∷◌, Option, arith,
  leb, ltb, ◌==◌, text_eqb, text_eqb→eq, ◌⊎◌, subst, length, filter, count, any-filter, mem-filter,
  mem-append_left, Bool-cases, inl, inr,
}
use mekamb_chat.Server.Inbox.{
  Inbox, Envelope, Device, Socket, Message, has_read, touch, register_device, is_live, is_silent,
  retention_ms, live_reads, forget_orphans, clean_up, acknowledge, enqueue, schedule_cleanup,
  deposit, pending, connect, obey, receive, drop_silent, drop_expired, renew_alarm, alarm,
  max_envelope_bytes, socket_device,
}
use mekamb_chat.Server.Inbox.Wire.{text, binary, Command, ping, ack, other, parse_command}
use mekamb_chat.Server.Inbox.Counting.{UniqueReads, live_reads-everyone}
use mekamb_chat.Server.Inbox.Invariant.{Inv, drop_silent-Inv, if_case, insert_read-UniqueReads}
use mekamb_chat.Server.Inbox.Acknowledge.{
  is_counted, everyone_read-has_read, touch-is_counted, touch-is_counted_ne, has_read-insert,
}
use mekamb_chat.Server.Inbox.Trace.{
  Event, deposits, connects, receives, wakes, step, run, WellFormed, step-WellFormed,
}

-- The envelope lies in the queue and the device has not read it.
pub record Waits (d : String) (e : Envelope) (s : Inbox) : Type 0 where
  pub stored : Mem e s.queue
  pub unread : has_read d e.id s.reads ≡ false

forget_orphans-Waits :
    (d : String) (e : Envelope) (s : Inbox) → Waits d e s → Waits d e (forget_orphans s)
unfolding forget_orphans
forget_orphans-Waits d e s w = record {
  stored = w.stored;
  unread = any-filter _ _ s.reads w.unread;
}

clean_up-Waits :
    (d : String) (e : Envelope) (s : Inbox) (now : ℕ)
    → UniqueReads s.reads
    → is_counted now d s.devices ≡ true
    → Waits d e s
    → Waits d e (clean_up s now)
unfolding clean_up
clean_up-Waits d e s now h c w = if_case (Waits d e) (count (is_live now) s.devices == 0) _ _ w (
    forget_orphans-Waits d e _ (record {
      stored =
          mem-filter
            (λ x. not (leb (count (is_live now) s.devices) (live_reads now s.devices s.reads x.id)))
            e s.queue w.stored kept;
      unread = w.unread;
    }))
  where
    kept : not (leb (count (is_live now) s.devices) (live_reads now s.devices s.reads e.id)) ≡ true
    kept =
        rw
          (
            live_reads-everyone now s.devices s.reads e.id h,
            everyone_read-has_read now d e.id s.reads s.devices c w.unread,
          )
          refl

-- The message is not this device's acknowledgement of this envelope.
abbrev pub spares : String → ℕ → String → Command → Bool
spares d i c ping = true
spares d i c (ack j) = not (text_eqb c d && j == i)
spares d i c other = true

abbrev pub spares_message : String → ℕ → Socket → Message → Bool
spares_message d i w binary = true
spares_message d i w (text cs) = spares d i (socket_device w) (parse_command cs)

-- An event that may not take the envelope from the device: it is no acknowledgement of it by that
-- device, and no cleaning alarm after its time.
abbrev pub Spares : String → Envelope → ℕ → Event → Type 0
Spares d e now (receives w m) = spares_message d e.id w m ≡ true
Spares d e now wakes = now ≤ e.created_at + retention_ms
Spares d e now _ = Unit {0}

-- Each event of the history spares the envelope, and finds the device seen in time.
abbrev pub Safe : String → Envelope → Inbox → List (ℕ × Event) → Type 0
Safe d e s [] = Unit {0}
Safe d e s ((now, ev) ∷ es) =
    (is_counted now d s.devices ≡ true) × Spares d e now ev × Safe d e (step s now ev) es

acknowledge-Waits :
    (d : String) (e : Envelope) (s : Inbox) (i : ℕ) (c : String) (now : ℕ)
    → Inv s
    → is_counted now d s.devices ≡ true
    → (text_eqb c d && i == e.id) ≡ false
    → Waits d e s
    → Waits d e (acknowledge s i c now)
unfolding acknowledge register_device
acknowledge-Waits d e s i c now v counted spared w =
    clean_up-Waits d e _ now (insert_read-UniqueReads c i s.reads v.reads_unique)
      (counted_after (Bool-cases (text_eqb c d)))
      (record {
        stored = w.stored;
        unread = rw (has_read-insert c d i e.id s.reads, w.unread) spared;
      })
  where
    counted_after :
        (text_eqb c d ≡ true) ⊎ (text_eqb c d ≡ false)
        → is_counted now d (touch c now s.devices) ≡ true
    counted_after (inl same) =
        subst (λ x. is_counted now x (touch c now s.devices) ≡ true) (text_eqb→eq c d same)
          (touch-is_counted now c s.devices)
    counted_after (inr differs) = touch-is_counted_ne now c d s.devices differs ∙ counted

obey-Waits :
    (d : String) (e : Envelope) (s : Inbox) (w : Socket) (now : ℕ) (c : Command)
    → Inv s
    → is_counted now d s.devices ≡ true
    → spares d e.id (socket_device w) c ≡ true
    → Waits d e s
    → Waits d e (obey s w now c).0
unfolding obey
obey-Waits d e s w now ping v counted h k = k
obey-Waits d e s w now (ack i) v counted h k =
    acknowledge-Waits d e s i (socket_device w) now v counted (ground arith) k
obey-Waits d e s w now other v counted h k = k

deposit-Waits :
    (d : String) (e : Envelope) (s : Inbox) (ws : List Socket) (bytes : List ℕ) (now : ℕ)
    → Waits d e s
    → Waits d e (deposit s ws bytes now).state
unfolding deposit enqueue schedule_cleanup
deposit-Waits d e s ws bytes now w = elim (Bool-cases (ltb max_envelope_bytes (length bytes))) [
  | inl p ↦ rw p w
  | inr p ↦ rw p (record { stored = mem-append_left e s.queue _ w.stored; unread = w.unread })
]

connect-Waits :
    (d : String) (e : Envelope) (s : Inbox) (upgrade : Bool) (c : Option String) (handle now : ℕ)
    → Waits d e s
    → Waits d e (connect s upgrade c handle now).state
unfolding connect register_device
connect-Waits d e s true c handle now w = record { stored = w.stored; unread = w.unread }
connect-Waits d e s false c handle now w = w

-- A device that counts is not dropped as silent.
is_counted-drop :
    (now : ℕ) (d : String) (us : List Device)
    → is_counted now d us ≡ true
    → is_counted now d (filter (λ u. not (is_silent now u)) us) ≡ true
is_counted-drop now d [] h = h
is_counted-drop now d (u ∷ us) h = ground (arith, is_counted-drop now d us)

drop_silent-Waits :
    (d : String) (e : Envelope) (s : Inbox) (now : ℕ) → Waits d e s → Waits d e (drop_silent s now)
unfolding drop_silent
drop_silent-Waits d e s now w = record {
  stored = w.stored;
  unread = any-filter _ _ s.reads w.unread;
}

drop_expired-Waits :
    (d : String) (e : Envelope) (s : Inbox) (now : ℕ)
    → now ≤ e.created_at + retention_ms
    → Waits d e s
    → Waits d e (drop_expired s now)
unfolding drop_expired
drop_expired-Waits d e s now h w = record {
  stored =
      mem-filter (λ x. not (ltb (x.created_at + retention_ms) now)) e s.queue w.stored
        (ground arith);
  unread = w.unread;
}

renew_alarm-Waits :
    (d : String) (e : Envelope) (s : Inbox) (now : ℕ) → Waits d e s → Waits d e (renew_alarm s now)
unfolding renew_alarm
renew_alarm-Waits d e s now w =
    if_case (Waits d e) (length s.queue == 0) _ _ w
      (record { stored = w.stored; unread = w.unread })

alarm-Waits :
    (d : String) (e : Envelope) (s : Inbox) (now : ℕ)
    → Inv s
    → is_counted now d s.devices ≡ true
    → now ≤ e.created_at + retention_ms
    → Waits d e s
    → Waits d e (alarm s now)
unfolding alarm
alarm-Waits d e s now v counted h w = renew_alarm-Waits d e _ now (
    forget_orphans-Waits d e _ (
      drop_expired-Waits d e _ now h (
        clean_up-Waits d e (drop_silent s now) now (drop_silent-Inv s now v).reads_unique
          (unfold drop_silent in is_counted-drop now d s.devices counted)
          (drop_silent-Waits d e s now w))))

step-Waits :
    (d : String) (e : Envelope) (s : Inbox) (now : ℕ) (ev : Event)
    → Inv s
    → is_counted now d s.devices ≡ true
    → Spares d e now ev
    → Waits d e s
    → Waits d e (step s now ev)
unfolding step
step-Waits d e s now (deposits ws bytes) v c h w = deposit-Waits d e s ws bytes now w
step-Waits d e s now (connects upgrade k handle) v c h w =
    connect-Waits d e s upgrade k handle now w
step-Waits d e s now (receives k binary) v c h w = unfold receive in w
step-Waits d e s now (receives k (text cs)) v c h w =
    unfold receive in obey-Waits d e s k now (parse_command cs) v c h w
step-Waits d e s now wakes v c h w = alarm-Waits d e s now v c h w

run-Waits :
    (d : String) (e : Envelope) (s : Inbox) (es : List (ℕ × Event))
    → WellFormed s
    → Safe d e s es
    → Waits d e s
    → Waits d e (run s es)
unfolding run
run-Waits d e s [] v safe w = w
run-Waits d e s ((now, ev) ∷ es) v safe w =
    run-Waits d e (step s now ev) es (step-WellFormed s now ev v) safe.2
      (step-Waits d e s now ev v.inv safe.0 safe.1 w)

-- No envelope is lost to a device: from a well formed state, over every history whose events find
-- the device seen within the retention time, hold no acknowledgement of the envelope by it and no
-- alarm after the envelope's time, an envelope in the queue that the device has not read is in the
-- end still among those that a connection of the device sends.
pub no_loss :
    (d : String) (e : Envelope) (s : Inbox) (es : List (ℕ × Event))
    → WellFormed s
    → Mem e s.queue
    → has_read d e.id s.reads ≡ false
    → Safe d e s es
    → Mem e (pending (run s es) d)
unfolding pending
no_loss d e s es v stored unread safe = mem-filter _ e _ w.stored (rw w.unread refl)
  where
    w : Waits d e (run s es)
    w = run-Waits d e s es v safe (record { stored = stored; unread = unread })
