-- ===== src/Web/Messenger/Sending.antt =====
-- The sending of messages (web/src/lib/messenger.ts, `sendText` to `sendCallSignal`).
use mekamb_chat.Common.{ℕ, String, List, [], ◌∷◌}
use mekamb_chat.Server.Tokens.{to_hex}
use mekamb_chat.Web.Messenger.{
  application, CallSignal, Metadata, Content, plain, receipt, names, signal, Platform, Act, pure,
  ◌>>=◌, ◌>>◌, change, persist,
}
use mekamb_chat.Web.Messenger.Mailboxes.{send_round}
use mekamb_chat.Web.Messenger.Packing.{join_ids}

module _ {C N : Type 0} (p : Platform C N) (now : ℕ) where
  -- Sealing moves the core on: its state is saved before the envelope leaves. The identifier of the
  -- message is given back.
  unfoldable pub send_content : List ℕ → Content → Act C N (List ℕ)
  send_content group content = do
    sealed ← change (p.seal group content now)
    persist
    send_round p now group (p.encode_envelope group application sealed.0)
    pure (to_hex sealed.1)

  -- `sendText`
  abbrev pub send_text : List ℕ → String → Act C N (List ℕ)
  send_text group text = send_content group (plain text)

  -- `sendMetadata`
  unfoldable pub send_metadata : List ℕ → Metadata → Act C N (Unit {0})
  send_metadata group given = send_content group (names given) >> pure tt

  -- `sendReceipt`: nothing is sent for no messages.
  unfoldable pub send_receipt : List ℕ → String → List (List ℕ) → Act C N (Unit {0})
  send_receipt group kind [] = pure tt
  send_receipt group kind (id ∷ ids) =
      send_content group (receipt kind (join_ids (id ∷ ids))) >> pure tt

  -- `sendCallSignal`
  unfoldable pub send_call_signal : List ℕ → CallSignal → Act C N (Unit {0})
  send_call_signal group given = send_content group (signal given) >> pure tt
