-- ===== src/Web/Messenger/Receiving.antt =====
-- The handling of an envelope (web/src/lib/messenger.ts, `przetworzKoperte`). The envelopes are handled
-- one after another, as `handleEnvelope` makes each wait for the one before.
use mekamb_chat.Common.{ℕ, Bool, true, false, Option, none, some, List, if◌then◌else◌, text_eqb}
use mekamb_chat.Web.Echoes.{take_own}
use mekamb_chat.Web.Messenger.{
  Account, EnvelopeKind, application, commit, welcome, RawReceipt, Receipt, Incoming, Arrival,
  message, proposal_queued, other, Received, Platform, done, Act, pure, raise, ◌>>=◌, ◌>>◌, catch,
  change, ask, persist,
}
use mekamb_chat.Web.Messenger.Commits.{close_proposals}
use mekamb_chat.Web.Messenger.Packing.{split_ids}

-- A receipt of a kind that the core does not know is dropped.
unfoldable pub read_receipt : Option RawReceipt → Option Receipt
read_receipt none = none
read_receipt (some r) =
    if text_eqb r.kind "nieznany"
    then none
    else some (record { kind = r.kind; message_ids = split_ids r.message_ids })

unfoldable pub received : List ℕ → Incoming → Received
unfolding read_receipt
received group m = record {
  group_id = group;
  sender_user_id = m.sender_user_id;
  sender_device_id = m.sender_device_id;
  text = m.text;
  sent_at_ms = m.sent_at_ms;
  message_id = m.message_id;
  call = m.call;
  attachment = m.attachment;
  receipt = read_receipt m.receipt;
  metadata = m.metadata;
}

module _ {C N : Type 0} (p : Platform C N) (me : Account) (now : ℕ) where
  -- `czyWlasna`
  unfoldable pub is_own : List ℕ → Act C N Bool
  is_own bytes w =
      let (known, own) = take_own p.digest bytes w.known in (done own, record w { known = known })

  -- A welcome that the core refuses is given up with no error. The call of `naDolaczenie` is the
  -- interface's and leaves the messenger as it is.
  unfoldable pub join : List ℕ → Act C N (Option Received)
  join payload =
      catch (do change (p.join_from_welcome payload); pure true) (λ _. pure false) >>= λ joined.
      if joined then persist >> pure none else pure none

  -- A queued proposal is closed by a commit of one's own.
  unfoldable pub after_commit : List ℕ → Arrival → Act C N (Option Received)
  after_commit group proposal_queued = close_proposals p me now group >> pure none
  after_commit group other = pure none
  after_commit group (message m) = pure none

  unfoldable pub take_commit : List ℕ → List ℕ → Act C N (Option Received)
  take_commit group payload = do
    arrival ← change (p.receive group payload)
    persist
    after_commit group arrival

  unfoldable pub take_message : List ℕ → List ℕ → Act C N (Option Received)
  take_message group payload = do
    arrival ← change (p.receive group payload)
    persist
    pure (elim arrival [
      | message m ↦ some (received group m)
      | proposal_queued ↦ none
      | other ↦ none
    ])

  unfoldable pub open_matched : EnvelopeKind → List ℕ → Option (List ℕ) → Act C N (Option Received)
  open_matched kind payload none = pure none
  open_matched application payload (some group) = take_message group payload
  open_matched commit payload (some group) = take_commit group payload
  open_matched welcome payload (some group) = take_message group payload

  unfoldable pub open_envelope : List ℕ → Option (EnvelopeKind × List ℕ) → Act C N (Option Received)
  open_envelope bytes none = raise "core"
  open_envelope bytes (some (welcome, payload)) = join payload
  open_envelope bytes (some (commit, payload)) = do
    group ← ask (p.match_envelope bytes)
    open_matched commit payload group
  open_envelope bytes (some (application, payload)) = do
    group ← ask (p.match_envelope bytes)
    open_matched application payload group

  -- `przetworzKoperte`
  unfoldable pub handle_envelope : List ℕ → Act C N (Option Received)
  handle_envelope bytes = do
    own ← is_own bytes
    if own then pure none else open_envelope bytes (p.decode_envelope bytes)
