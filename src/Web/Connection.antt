-- ===== src/Web/Connection.antt =====
-- The client's connection with its mailbox: `polaczZeSkrzynka` (web/src/lib/polaczenie.ts). Sockets
-- are numbered as they are opened; a timer is what it was set for, and a fired or cleared one is gone.
use mekamb_chat.Common.{
  ℕ, suc, ◌+◌, ◌*◌, Bool, true, false, Option, none, some, List, [], ◌∷◌, ◌++◌, min, leb,
  if◌then◌else◌, is_some, ◌||◌,
}
pub mod Bounds
pub mod Retries

-- `StanPolaczenia`
pub data LinkState : Type 0 where
  connecting connected disconnected : LinkState

-- The variables of the closure: `gniazdo`, `pingId` (the socket that it pings), `ponowienieId` (the
-- time it waits), `odstep`, `zamkniete`, `bezOdpowiedzi`, and how many sockets were opened.
pub record Link : Type 0 where
  pub socket : Option ℕ
  pub ping : Option ℕ
  pub retry : Option ℕ
  pub delay : ℕ
  pub shut : Bool
  pub unanswered : ℕ
  pub opened : ℕ

-- What it does to the outside.
pub data Act : Type 0 where
  shows : LinkState → Act
  opens closes pings : ℕ → Act
  acks : ℕ → ℕ → Act
  hands_on : List ℕ → Act

abbrev pub ping_ms : ℕ
ping_ms = 30000

abbrev pub pings_unanswered : ℕ
pings_unanswered = 2

abbrev pub retry_min_ms : ℕ
retry_min_ms = 1000

abbrev pub retry_max_ms : ℕ
retry_max_ms = 30000

-- `zatrzymajPing`
unfoldable pub stop_ping : Link → Link
stop_ping s = record s { ping = none }

-- `zaplanujPonowienie`
unfoldable pub plan_retry : Link → Link
plan_retry s = if s.shut || is_some s.retry then s else record s { retry = some s.delay }

-- `polacz`
unfoldable pub connect : Link → Link × List Act
connect s = if s.shut then (s, []) else (
  record s { socket = some s.opened; opened = suc s.opened },
  shows connecting ∷ opens s.opened ∷ [],
)

-- The timer of a retry.
unfoldable pub on_retry : Link → Link × List Act
unfolding connect
on_retry s = elim s.retry [
  | none ↦ (s, [])
  | some d ↦ connect (record s { retry = none; delay = min (s.delay * 2) retry_max_ms })
]

-- `socket.onopen`
unfoldable pub on_open : ℕ → Link → Link × List Act
unfolding stop_ping
on_open n s = (
  record (stop_ping (record s { delay = retry_min_ms; unanswered = 0 })) { ping = some n },
  shows connected ∷ [],
)

-- The interval that `onopen` sets.
unfoldable pub on_tick : Link → Link × List Act
unfolding stop_ping
on_tick s = elim s.ping [
  | none ↦ (s, [])
  | some n ↦
      if leb pings_unanswered s.unanswered
      then (stop_ping s, closes n ∷ [])
      else (record s { unanswered = s.unanswered + 1 }, pings n ∷ [])
]

-- `socket.onmessage`: a text is the answer to a ping, anything else a frame.
unfoldable pub on_message : Option (List ℕ) → Link → Link × List Act
on_message none s = (record s { unanswered = 0 }, [])
on_message (some frame) s = (record s { unanswered = 0 }, hands_on frame ∷ [])

-- `potwierdz` of a frame: bound to the socket that brought it, and silent when that is not open.
unfoldable pub acknowledge : ℕ → Bool → ℕ → List Act
acknowledge n is_open id = if is_open then acks n id ∷ [] else []

-- `socket.onclose`
unfoldable pub on_close : Link → Link × List Act
unfolding stop_ping plan_retry
on_close s =
    let t = stop_ping s in if t.shut then (t, []) else (plan_retry t, shows disconnected ∷ [])

-- `socket.onerror`
unfoldable pub on_error : ℕ → Link → Link × List Act
on_error n s = (s, closes n ∷ [])

abbrev pub close_socket : Option ℕ → List Act
close_socket none = []
close_socket (some n) = closes n ∷ []

-- `zamknij`
unfoldable pub shut_down : Link → Link × List Act
unfolding stop_ping
shut_down s =
    (record (stop_ping (record s { shut = true })) { retry = none }, close_socket s.socket)

-- What the browser, the timers, the receiver of frames and the owner of the connection bring.
pub data Event : Type 0 where
  retries ticks drops shuts : Event
  opened_up errs : ℕ → Event
  says : Option (List ℕ) → Event
  confirms : ℕ → Bool → ℕ → Event

unfoldable pub step : Event → Link → Link × List Act
unfolding on_retry on_tick on_close shut_down on_open on_error on_message acknowledge
step retries s = on_retry s
step ticks s = on_tick s
step drops s = on_close s
step shuts s = shut_down s
step (opened_up n) s = on_open n s
step (errs n) s = on_error n s
step (says message) s = on_message message s
step (confirms n is_open id) s = (s, acknowledge n is_open id)

-- The end of a run, and all that was done, in order.
unfoldable pub run : Link → List Event → Link × List Act
unfolding step
run s [] = (s, [])
run s (e ∷ es) = let (t, acts) = step e s in let (u, later) = run t es in (u, acts ++ later)

-- `polaczZeSkrzynka`: what a new connection starts with.
unfoldable pub start : Link × List Act
unfolding connect
start = connect (record {
  socket = none;
  ping = none;
  retry = none;
  delay = retry_min_ms;
  shut = false;
  unanswered = 0;
  opened = 0;
})
