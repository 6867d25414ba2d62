-- ===== src/Server/Inbox.antt =====
-- One user's mailbox, the Durable Object `UserInbox` (server/src/inbox.ts).
-- A table is the list of its rows, `queue` in the order of its AUTOINCREMENT ids. Each operation
-- takes the time `now` in milliseconds; a comparison with `now - retention` is written without
-- the subtraction, which would stop at 0.
pub mod Wire
pub mod Counting
pub mod Invariant
pub mod Migration
pub mod Acknowledge
pub mod Known
pub mod Trace
pub mod NoLoss
use Wire.{with_id, pong, Message, text, binary, Command, ping, ack, other, parse_command}
use mekamb_chat.Common.{
  ℕ, suc, ◌+◌, ◌*◌, String, Bool, true, false, not, ◌&&◌, ◌||◌, Option, none, some, List, [], ◌∷◌,
  ◌++◌, map, ltb, leb, ◌==◌, if◌then◌else◌, get_or_else, text_eqb, text_discrete, length, filter,
  any, find, count, sum_by,
}

-- A row of `queue`.
pub record Envelope : Type 0 where
  pub id : ℕ
  pub bytes : List ℕ
  pub created_at : ℕ

-- A row of `urzadzenia`.
pub record Device : Type 0 where
  pub device_id : String
  pub seen_at : ℕ

-- A row of `device_reads`.
pub record Read : Type 0 where
  pub reader : String
  pub envelope_id : ℕ

-- A row of the table `kursory` of the version before.
pub record Cursor : Type 0 where
  pub cursor_device : String
  pub last_id : ℕ
  pub cursor_seen_at : ℕ

-- `sequence` is the counter of AUTOINCREMENT, `cursors` the old table where it is there still.
pub record Inbox : Type 0 where
  pub queue : List Envelope
  pub sequence : ℕ
  pub devices : List Device
  pub reads : List Read
  pub cursors : Option (List Cursor)
  pub alarm_at : Option ℕ

-- A connected WebSocket: the device pinned to it, and whether `send` on it succeeds.
pub record Socket : Type 0 where
  pub handle : ℕ
  pub attachment : Option String
  pub can_send : Bool

-- What goes out on a socket.
pub record Frame : Type 0 where
  pub to : ℕ
  pub payload : List ℕ

abbrev pub max_envelope_bytes : ℕ
max_envelope_bytes = 1024 * 1024

abbrev pub day_ms : ℕ
day_ms = 24 * 60 * 60 * 1000

abbrev pub retention_ms : ℕ
retention_ms = 30 * day_ms

abbrev pub unknown_device : String
unknown_device = "nieznane"

-- The device of a socket, or the shared account of those that pin none.
unfoldable pub socket_device : Socket → String
socket_device s = get_or_else s.attachment unknown_device

-- `(device, id)` is in `device_reads`.
abbrev pub has_read : String → ℕ → List Read → Bool
has_read d i = any (λ r. text_eqb r.reader d && r.envelope_id == i)

-- INSERT OR IGNORE INTO device_reads
abbrev pub insert_read : String → ℕ → List Read → List Read
insert_read d i rs =
    if has_read d i rs then rs else rs ++ record { reader = d; envelope_id = i } ∷ []

-- INSERT INTO urzadzenia … ON CONFLICT DO UPDATE
unfoldable pub touch : String → ℕ → List Device → List Device
touch d now [] = record { device_id = d; seen_at = now } ∷ []
touch d now (u ∷ us) =
    if text_eqb u.device_id d then record u { seen_at = now } ∷ us else u ∷ touch d now us

-- `zarejestrujUrzadzenie`
unfoldable pub register_device : Inbox → String → ℕ → Inbox
register_device s d now = record s { devices = touch d now s.devices }

-- `widziane_o > now - retention`
abbrev pub is_live : ℕ → Device → Bool
is_live now u = ltb now (u.seen_at + retention_ms)

-- The rows of the join of `device_reads` with the live devices that the group of `id` counts.
abbrev pub live_reads : ℕ → List Device → List Read → ℕ → ℕ
live_reads now devices reads id =
    sum_by
      (λ r.
        if r.envelope_id == id
        then count (λ u. text_eqb u.device_id r.reader && is_live now u) devices
        else 0)
      reads

-- `zapomnijOsierocone`
unfoldable pub forget_orphans : Inbox → Inbox
forget_orphans s = record s {
  reads = filter (λ r. any (λ e. e.id == r.envelope_id) s.queue) s.reads;
}

-- `sprzatnij`
unfoldable pub clean_up : Inbox → ℕ → Inbox
unfolding forget_orphans
clean_up s now =
    let live = count (is_live now) s.devices in
    if live == 0
    then s
    else forget_orphans (record s {
      queue = filter (λ e. not (leb live (live_reads now s.devices s.reads e.id))) s.queue;
    })

-- `acknowledge`
unfoldable pub acknowledge : Inbox → ℕ → String → ℕ → Inbox
unfolding register_device
acknowledge s id d now =
    let t = register_device s d now in clean_up (record t { reads = insert_read d id t.reads }) now

-- `scheduleCleanup`
unfoldable pub schedule_cleanup : Inbox → ℕ → Inbox
schedule_cleanup s now = record s { alarm_at = some (get_or_else s.alarm_at (now + day_ms)) }

pub data Delivery : Type 0 where
  live queued : Delivery

-- `none` is the exception for an envelope that is too large.
pub record Deposited : Type 0 where
  pub state : Inbox
  pub result : Option Delivery
  pub frames : List Frame

-- The loop over the sockets: a failed `send` does not stop it.
abbrev pub broadcast : List ℕ → List Socket → List Frame
broadcast payload [] = []
broadcast payload (w ∷ ws) =
    if w.can_send
    then record { to = w.handle; payload = payload } ∷ broadcast payload ws
    else broadcast payload ws

unfoldable pub enqueue : Inbox → List ℕ → ℕ → Inbox
enqueue s bytes now = record s {
  queue = s.queue ++ record { id = suc s.sequence; bytes = bytes; created_at = now } ∷ [];
  sequence = suc s.sequence;
}

-- `deposit`
unfoldable pub deposit : Inbox → List Socket → List ℕ → ℕ → Deposited
unfolding enqueue schedule_cleanup
deposit s sockets bytes now =
    let t = schedule_cleanup (enqueue s bytes now) now in
    if ltb max_envelope_bytes (length bytes)
    then record { state = s; result = none; frames = [] }
    else record {
      state = t;
      result = some (if any (λ w. w.can_send) sockets then live else queued);
      frames = broadcast (with_id (suc s.sequence) bytes) sockets;
    }

-- The query of `flushTo`.
unfoldable pub pending : Inbox → String → List Envelope
pending s d = filter (λ e. not (has_read d e.id s.reads)) s.queue

-- `flushTo`
unfoldable pub flush_to : Inbox → ℕ → String → List Frame
flush_to s handle d =
    map (λ e. record { to = handle; payload = with_id e.id e.bytes }) (pending s d)

-- `pendingCount`, `pendingCountFor`
unfoldable pub pending_count : Inbox → ℕ
pending_count s = length s.queue

unfoldable pub pending_count_for : Inbox → String → ℕ
unfolding pending
pending_count_for s d = length (pending s d)

-- `searchParams.get("urzadzenie") || URZADZENIE_NIEZNANE`
unfoldable pub requested_device : Option String → String
requested_device none = unknown_device
requested_device (some d) = if text_eqb d "" then unknown_device else d

-- Status 101 with the new socket, or 426.
pub record Connected : Type 0 where
  pub state : Inbox
  pub status : ℕ
  pub socket : Option Socket
  pub frames : List Frame

-- `fetch`; `handle` is the socket that the runtime makes.
unfoldable pub connect : Inbox → Bool → Option String → ℕ → ℕ → Connected
unfolding requested_device register_device flush_to
connect s upgrade requested handle now =
    let d = requested_device requested in
    let t = register_device s d now in
    if upgrade
    then record {
      state = t;
      status = 101;
      socket = some (record { handle = handle; attachment = some d; can_send = true });
      frames = flush_to t handle d;
    }
    else record { state = s; status = 426; socket = none; frames = [] }

unfoldable pub obey : Inbox → Socket → ℕ → Command → Inbox × List Frame
unfolding socket_device
obey s w now ping = (s, record { to = w.handle; payload = pong } ∷ [])
obey s w now (ack id) = (acknowledge s id (socket_device w) now, [])
obey s w now other = (s, [])

-- `webSocketMessage`: the new state and what is sent back.
unfoldable pub receive : Inbox → Socket → Message → ℕ → Inbox × List Frame
unfolding obey
receive s w binary now = (s, [])
receive s w (text cs) now = obey s w now (parse_command cs)

-- A device that has been silent for longer than envelopes are kept.
abbrev pub is_silent : ℕ → Device → Bool
is_silent now u = ltb (u.seen_at + retention_ms) now

-- The first two statements of `alarm`; the runtime clears the alarm before it calls.
unfoldable pub drop_silent : Inbox → ℕ → Inbox
drop_silent s now = record s {
  reads =
      filter (λ r. not (any (λ u. text_eqb u.device_id r.reader && is_silent now u) s.devices))
        s.reads;
  devices = filter (λ u. not (is_silent now u)) s.devices;
  alarm_at = none;
}

unfoldable pub drop_expired : Inbox → ℕ → Inbox
drop_expired s now = record s {
  queue = filter (λ e. not (ltb (e.created_at + retention_ms) now)) s.queue;
}

unfoldable pub renew_alarm : Inbox → ℕ → Inbox
renew_alarm s now = if length s.queue == 0 then s else record s { alarm_at = some (now + day_ms) }

-- `alarm`
unfoldable pub alarm : Inbox → ℕ → Inbox
unfolding drop_silent clean_up drop_expired forget_orphans renew_alarm
alarm s now = renew_alarm (forget_orphans (drop_expired (clean_up (drop_silent s now) now) now)) now

-- The codes that a server may pass to `close`.
unfoldable pub close_code : ℕ → ℕ
close_code code = if leb 1000 code && ltb code 1005 then code else 1000

-- INSERT OR IGNORE of the old devices, and of the reads that a cursor stands for.
abbrev pub migrate_devices : List Cursor → List Device → List Device
migrate_devices [] us = us
migrate_devices (c ∷ cs) us = migrate_devices cs (
    if any (λ u. text_eqb u.device_id c.cursor_device) us
    then us
    else us ++ record { device_id = c.cursor_device; seen_at = c.cursor_seen_at } ∷ [])

abbrev pub read_below : Cursor → List Envelope → List Read → List Read
read_below c [] rs = rs
read_below c (e ∷ es) rs =
    read_below c es (if leb e.id c.last_id then insert_read c.cursor_device e.id rs else rs)

abbrev pub migrate_reads : List Cursor → List Envelope → List Read → List Read
migrate_reads [] q rs = rs
migrate_reads (c ∷ cs) q rs = migrate_reads cs q (read_below c q rs)

-- `przeniesKursory`
unfoldable pub migrate_cursors : Inbox → Inbox
migrate_cursors s = elim s.cursors [
  | none ↦ s
  | some cs ↦ record s {
    devices = migrate_devices cs s.devices;
    reads = migrate_reads cs s.queue s.reads;
    cursors = none;
  }
]

-- The tables as the constructor makes them.
unfoldable pub empty_inbox : Inbox
empty_inbox = record {
  queue = [];
  sequence = 0;
  devices = [];
  reads = [];
  cursors = none;
  alarm_at = none;
}
