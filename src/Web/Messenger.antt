-- ===== src/Web/Messenger.antt =====
-- The messenger of the client (web/src/lib/messenger.ts): what it works with and the single steps.
-- The core, in WebAssembly, and the network are parameters; exceptions keep what was done before.
use mekamb_chat.Common.{
  ℕ, ◌+◌, String, append_text, Bool, true, false, not, ◌&&◌, ◌||◌, Option, none, some, List, [],
  ◌∷◌, ◌++◌, map, filter, if◌then◌else◌, text_eqb, ◌==◌,
}
use mekamb_chat.Web.Echoes.{Known, remember, take_own}
use mekamb_chat.Web.DeliveryTokens.{Token, Storage, take_token, token_header}
pub mod Mailboxes
pub mod Ensures
pub mod Packing
pub mod Commits
pub mod Sending
pub mod Receiving
pub mod TidySteps
pub mod SavedFirst
pub mod Traces
pub mod RoundTrips

-- The fields of `Account` that are used.
pub record Account : Type 0 where
  pub user_id : String
  pub device_id : String

pub data EnvelopeKind : Type 0 where
  application commit welcome : EnvelopeKind

-- A commit that is prepared, with the welcome of those it adds.
pub record Pending : Type 0 where
  pub commit : List ℕ
  pub welcome : Option (List ℕ)

pub record Attachment : Type 0 where
  pub blob_id : String
  pub key : List ℕ
  pub nonce : List ℕ
  pub mime_type : String
  pub size_bytes : ℕ
  pub file_name : Option String

pub record CallSignal : Type 0 where
  pub kind : String
  pub call_id : List ℕ
  pub payload : String
  pub dtls_fingerprint : String
  pub target : String

pub record Metadata : Type 0 where
  pub group_name : Option String
  pub display_name : Option String

-- A receipt as the core gives it, and as the client passes it on.
pub record RawReceipt : Type 0 where
  pub kind : String
  pub message_ids : List ℕ

pub record Receipt : Type 0 where
  pub kind : String
  pub message_ids : List (List ℕ)

pub record Incoming : Type 0 where
  pub sender_user_id : String
  pub sender_device_id : String
  pub text : String
  pub sent_at_ms : ℕ
  pub message_id : List ℕ
  pub call : Option CallSignal
  pub attachment : Option Attachment
  pub receipt : Option RawReceipt
  pub metadata : Option Metadata

-- What the core makes of a payload.
pub data Arrival : Type 0 where
  message : Incoming → Arrival
  proposal_queued other : Arrival

-- `ReceivedMessage`
pub record Received : Type 0 where
  pub group_id : List ℕ
  pub sender_user_id : String
  pub sender_device_id : String
  pub text : String
  pub sent_at_ms : ℕ
  pub message_id : List ℕ
  pub call : Option CallSignal
  pub attachment : Option Attachment
  pub receipt : Option Receipt
  pub metadata : Option Metadata

-- The answer to the claim of an epoch: 200 with `accepted`, another status, or none at all.
pub data ClaimAnswer : Type 0 where
  answered : Bool → ClaimAnswer
  status : ℕ → ClaimAnswer
  lost : ClaimAnswer

-- A content that is to be sealed as a message of the group.
pub data Content : Type 0 where
  plain : String → Content
  file : Attachment → Content
  receipt : String → List ℕ → Content
  names : Metadata → Content
  signal : CallSignal → Content

-- The core over its state `C`, and the network over its state `N`. `none` is an exception, which may
-- come after a change of the state.
pub record Platform (C N : Type 0) : Type 0 where
  pub create_conversation : C → C × Option (List ℕ)
  pub epoch : List ℕ → C → Option ℕ
  pub members : List ℕ → C → Option (List String)
  pub add_members : List ℕ → List ℕ → C → C × Option Pending
  pub remove_device : List ℕ → String → C → C × Option (Option Pending)
  pub commit_pending : List ℕ → C → C × Option Pending
  pub confirm_commit : List ℕ → C → C × Option (Unit {0})
  pub discard_commit : List ℕ → C → C × Option (Unit {0})
  pub leave_conversation : List ℕ → C → C × Option (List ℕ)
  pub seal : List ℕ → Content → ℕ → C → C × Option (List ℕ × List ℕ)
  pub join_from_welcome : List ℕ → C → C × Option (List ℕ)
  pub match_envelope : List ℕ → C → Option (Option (List ℕ))
  pub receive : List ℕ → List ℕ → C → C × Option Arrival
  pub encode_envelope : List ℕ → EnvelopeKind → List ℕ → List ℕ
  pub decode_envelope : List ℕ → Option (EnvelopeKind × List ℕ)
  pub relay_id : List ℕ → String
  pub digest : List ℕ → String
  pub fits : Storage → Bool
  pub claim : String → ℕ → N → N × ClaimAnswer
  pub post : String → List ℕ → Option String → N → N × Bool
  pub devices_of : String → N → N × Option (List String)
  pub claim_package : String → N → N × Option (List ℕ)
  pub remove_from_directory : String → N → N × Bool

-- What the messenger does, the latest first: a call that may change the core's state, the saving of
-- that state, an envelope left in a mailbox, an epoch granted, a commit merged or given up.
pub data Step : Type 0 where
  changed saved : Step
  posted : String → List ℕ → Step
  granted : List ℕ → ℕ → Step
  confirmed discarded : List ℕ → Step

pub record World (C N : Type 0) : Type 0 where
  pub client : C
  pub stored : Option C
  pub known : Known
  pub storage : Storage
  pub net : N
  pub journal : List Step

pub data Outcome (A : Type 0) : Type 0 where
  done : A → Outcome A
  thrown : String → Outcome A

abbrev pub or_throw : {A : Type 0} → Option A → Outcome A
or_throw none = thrown "core"
or_throw (some a) = done a

abbrev pub Act : Type 0 → Type 0 → Type 0 → Type 0
Act C N A = World C N → Outcome A × World C N

module _ {C N A : Type 0} where
  unfoldable pub pure : A → Act C N A
  pure a w = (done a, w)

  unfoldable pub raise : String → Act C N A
  raise e w = (thrown e, w)

module _ {C N A B : Type 0} where
  abbrev pub continue : Outcome A → (A → Act C N B) → Act C N B
  continue (done a) f w = f a w
  continue (thrown e) f w = (thrown e, w)

  infixl 10 ◌>>=◌ ◌>>◌
  unfoldable pub ◌>>=◌ : Act C N A → (A → Act C N B) → Act C N B
  ◌>>=◌ m f w = let (r, w') = m w in continue r f w'

  abbrev pub ◌>>◌ : Act C N A → Act C N B → Act C N B
  m >> n = m >>= λ _. n

module _ {C N A : Type 0} where
  abbrev pub rescue : Outcome A → (String → Act C N A) → Act C N A
  rescue (done a) f w = (done a, w)
  rescue (thrown e) f w = f e w

  -- `try { await m } catch { … }`
  unfoldable pub catch : Act C N A → (String → Act C N A) → Act C N A
  catch m f w = let (r, w') = m w in rescue r f w'

module _ {C N : Type 0} where
  unfoldable pub write : Step → Act C N (Unit {0})
  write s w = (done tt, record w { journal = s ∷ w.journal })

  -- A call of the core that may change its state.
  unfoldable pub change : {A : Type 0} → (C → C × Option A) → Act C N A
  change f w =
      let (c, r) = f w.client in
      let w' = record w { client = c; journal = changed ∷ w.journal } in (or_throw r, w')

  -- A call of the core that only reads.
  unfoldable pub ask : {A : Type 0} → (C → Option A) → Act C N A
  ask f w = (or_throw (f w.client), w)

  -- A request to the server other than those that follow.
  unfoldable pub request : {A : Type 0} → (N → N × A) → Act C N A
  request f w = let (n, a) = f w.net in (done a, record w { net = n })

  -- `persist`
  unfoldable pub persist : Act C N (Unit {0})
  persist w = (done tt, record w { stored = some w.client; journal = saved ∷ w.journal })
