-- ===== src/Tests/Inbox.antt =====
-- Runs of a mailbox with two devices (server/src/inbox.ts), of the relay (server/src/group.ts) and of
-- the frames between a client and its mailbox.
use mathlib.Core.List.{mem-cons_self}
use mekamb_chat.Common.{
  inl, inr, ◌≤◌, ℕ, ◌≡◌, refl, true, not, ◌==◌, ltb, none, some, List, [], ◌∷◌, ◌++◌, Mem, arith,
  if◌then◌else◌, ◌+◌, filter, length, text_discrete,
}
use mekamb_chat.Server.Inbox.{
  Inbox, Envelope, Socket, socket_device, receive, touch, acknowledge, clean_up, deposit, pending,
  max_envelope_bytes,
}
use mekamb_chat.Server.Inbox.Wire.{text, with_id, parse_command}
use mekamb_chat.Server.Inbox.Invariant.{Inv}
use mekamb_chat.Server.Inbox.Acknowledge.{
  unread_by_some, clean_up-queue, pending-acknowledge_own, pending-acknowledge_other,
}
use mekamb_chat.Server.Inbox.Known.{IsKnown, pending-deposit}
use mekamb_chat.Server.Inbox.Trace.{
  Event, deposits, receives, wakes, run, WellFormed, run-WellFormed,
}
use mekamb_chat.Server.Inbox.NoLoss.{no_loss}
use mekamb_chat.Server.Relay.{Relay, epoch}
use mekamb_chat.Server.Relay.Order.{
  serve, answers, granted, granted_for, range_from, granted-answers,
}
use mekamb_chat.Web.Frame.{split_frame}
use mekamb_chat.Protocol.MailboxFrames.{split_frame-with_id}

abbrev first : Envelope
first = record { id = 1; bytes = 7 ∷ 8 ∷ []; created_at = 5 }

abbrev second : Envelope
second = record { id = 2; bytes = 9 ∷ []; created_at = 6 }

-- Two envelopes and two devices; the laptop has read the first.
abbrev mailbox : Inbox
mailbox = record {
  queue = first ∷ second ∷ [];
  sequence = 2;
  devices =
      record { device_id = "phone"; seen_at = 4 }
      ∷ record { device_id = "laptop"; seen_at = 4 }
      ∷ [];
  reads = record { reader = "laptop"; envelope_id = 1 } ∷ [];
  cursors = none;
  alarm_at = none;
}

mailbox-Inv : Inv mailbox
unfolding text_discrete
mailbox-Inv = record {
  ascending = (omega arith, (omega arith, omega arith));
  devices_unique = (refl, (refl, tt));
  reads_unique = (refl, tt);
}

mailbox-IsKnown : IsKnown mailbox
mailbox-IsKnown = record { known = (refl, tt) }

mailbox-WellFormed : WellFormed mailbox
mailbox-WellFormed = record { inv = mailbox-Inv; known = mailbox-IsKnown }

abbrev laptop : Socket
laptop = record { handle = 1; attachment = some "laptop"; can_send = true }

-- The laptop acknowledges the second envelope, an envelope comes, and the alarm fires.
abbrev morning : List (ℕ × Event)
morning =
    (10, receives laptop (text (97 ∷ 99 ∷ 107 ∷ 58 ∷ 50 ∷ [])))
    ∷ (11, deposits (laptop ∷ []) (1 ∷ 2 ∷ []))
    ∷ (12, wakes)
    ∷ []

no_loss_example : Mem first (pending (run mailbox morning) "phone")
unfolding text_discrete run parse_command socket_device receive acknowledge clean_up touch deposit
no_loss_example =
    no_loss "phone" first mailbox morning mailbox-WellFormed mem-cons_self refl
      ((refl, refl, (refl, tt, (refl, omega arith, tt))))

run-WellFormed_example : WellFormed (run mailbox morning)
run-WellFormed_example = run-WellFormed mailbox morning mailbox-WellFormed

clean_up-queue_example : (clean_up mailbox 10).queue ≡ unread_by_some mailbox 10
unfolding text_discrete
clean_up-queue_example = clean_up-queue mailbox 10 ((refl, tt))

pending-acknowledge_own_example :
    pending (acknowledge mailbox 2 "phone" 10) "phone"
    ≡ filter (λ e. not (e.id == 2)) (pending mailbox "phone")
pending-acknowledge_own_example = pending-acknowledge_own mailbox 2 "phone" 10 mailbox-Inv

pending-acknowledge_other_example :
    pending (acknowledge mailbox 2 "phone" 10) "laptop" ≡ pending mailbox "laptop"
unfolding text_discrete
pending-acknowledge_other_example =
    pending-acknowledge_other mailbox 2 "phone" "laptop" 10 mailbox-Inv refl refl

pending-deposit_example : pending (deposit mailbox (laptop ∷ []) (1 ∷ 2 ∷ []) 10).state "laptop" ≡ (
    if ltb max_envelope_bytes 2
    then pending mailbox "laptop"
    else pending mailbox "laptop" ++ record { id = 3; bytes = 1 ∷ 2 ∷ []; created_at = 10 } ∷ [])
pending-deposit_example =
    pending-deposit mailbox (laptop ∷ []) (1 ∷ 2 ∷ []) 10 "laptop" mailbox-Inv mailbox-IsKnown

abbrev relay : Relay
relay = record { epoch_row = some 4 }

abbrev expectations : List ℕ
expectations = 4 ∷ 4 ∷ 5 ∷ []

granted-answers_example :
    let k = length (granted (answers relay expectations)) in
    (granted_for expectations (answers relay expectations) ≡ range_from 4 k)
    × (granted (answers relay expectations) ≡ range_from 5 k)
    × (epoch (serve relay expectations) ≡ 4 + k)
    × (2 ≤ k)
unfolding epoch
granted-answers_example = granted-answers relay expectations 2 (inl (refl, inr (inl (refl, tt))))

split_frame-with_id_example : split_frame (with_id 258 (7 ∷ 8 ∷ [])) ≡ some (258, 7 ∷ 8 ∷ [])
split_frame-with_id_example = split_frame-with_id 258 (7 ∷ 8 ∷ []) (omega arith)
