-- ===== src/Server/Inbox/Trace.antt =====
-- Histories of a mailbox (server/src/inbox.ts): any sequence of its entry points, each at a time.
use mekamb_chat.Common.{ℕ, String, Bool, List, [], ◌∷◌, Option}
use mekamb_chat.Server.Inbox.{Inbox, Socket, Message, deposit, connect, receive, alarm}
use mekamb_chat.Server.Inbox.Invariant.{Inv, deposit-Inv, connect-Inv, receive-Inv, alarm-Inv}
use mekamb_chat.Server.Inbox.Known.{
  IsKnown, deposit-IsKnown, connect-IsKnown, receive-IsKnown, alarm-IsKnown,
}

pub data Event : Type 0 where
  deposits : List Socket → List ℕ → Event
  connects : Bool → Option String → ℕ → Event
  receives : Socket → Message → Event
  wakes : Event

unfoldable pub step : Inbox → ℕ → Event → Inbox
step s now (deposits ws bytes) = (deposit s ws bytes now).state
step s now (connects upgrade d handle) = (connect s upgrade d handle now).state
step s now (receives w m) = (receive s w m now).0
step s now wakes = alarm s now

unfoldable pub run : Inbox → List (ℕ × Event) → Inbox
unfolding step
run s [] = s
run s ((now, e) ∷ es) = run (step s now e) es

pub record WellFormed (s : Inbox) : Type 0 where
  pub inv : Inv s
  pub known : IsKnown s

pub step-WellFormed : (s : Inbox) (now : ℕ) (e : Event) → WellFormed s → WellFormed (step s now e)
unfolding step
step-WellFormed s now (deposits ws bytes) w = record {
  inv = deposit-Inv s ws bytes now w.inv;
  known = deposit-IsKnown s ws bytes now w.known;
}
step-WellFormed s now (connects upgrade d handle) w = record {
  inv = connect-Inv s upgrade d handle now w.inv;
  known = connect-IsKnown s upgrade d handle now w.known;
}
step-WellFormed s now (receives k m) w = record {
  inv = receive-Inv s k m now w.inv;
  known = receive-IsKnown s k m now w.known;
}
step-WellFormed s now wakes w = record { inv = alarm-Inv s now w.inv; known = alarm-IsKnown s now }

-- Every history keeps well formed tables well formed: rising ids within the counter, no key twice, and
-- reads of queued envelopes only.
pub run-WellFormed : (s : Inbox) (es : List (ℕ × Event)) → WellFormed s → WellFormed (run s es)
unfolding run
run-WellFormed s [] w = w
run-WellFormed s ((now, e) ∷ es) w = run-WellFormed (step s now e) es (step-WellFormed s now e w)
