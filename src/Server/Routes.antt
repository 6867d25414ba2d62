-- ===== src/Server/Routes.antt =====
-- The routes of the Worker (server/src/index.ts) with the check of access tokens
-- (server/src/middleware.ts, crypto.ts): what each lets through to the objects and the tables. The
-- decoding of base64, of the token's body and its signature are parameters.
use Prim.Native.String
use Prim.Native.Char.{Char, code}
use mekamb_chat.Common.{
  ℕ, ◌+◌, String, Bool, true, false, not, ◌&&◌, ◌||◌, Option, none, some, List, [], ◌∷◌, ◌++◌,
  if◌then◌else◌, ◌==◌, ltb, text_eqb, length, get_or_else, text_discrete, is_some,
}
use mekamb_chat.Common.Keyed.{get, set}
use mekamb_chat.Server.Auth.State.{User, TokenPayload, truthy}
use mekamb_chat.Server.Relay.{Relay, Claim}
use mekamb_chat.Server.Relay
use mekamb_chat.Server.Inbox.{
  Inbox, Socket, Delivery, Deposited, Connected, max_envelope_bytes, empty_inbox,
}
use mekamb_chat.Server.Inbox
use mekamb_chat.Server.Directory.{Device, Tables}
use mekamb_chat.Server.Directory
use mekamb_chat.Server.Tokens.{Spent, Redeemed}
use mekamb_chat.Server.Tokens
pub mod Access
pub mod Deposits

-- The tables and the objects, each made by its first use.
pub record Backend : Type 0 where
  pub users : List User
  pub tables : Tables
  pub spent : List Spent
  pub mailboxes : List (String × Inbox)
  pub relays : List (String × Relay)

-- Of the platform and the OPAQUE library: the signature of a token's body, the body's content, base64
-- and the check of a delivery token. `none` is an exception.
pub record Crypto : Type 0 where
  pub hmac : String → String
  pub payload_in : String → Option TokenPayload
  pub from_base64 : String → Option (List ℕ)
  pub verify_delivery : List ℕ → List ℕ → Option Bool

pub data Answer : Type 0 where
  refused : ℕ → String → Answer
  fine : Answer
  device_list : List Device → Answer
  key_package : List ℕ → Answer
  published : ℕ → ℕ → Answer
  claimed : Claim → Answer
  deposited : Option Delivery → Answer
  connected : Connected → Answer

-- The text before the last dot and the text behind it.
unfoldable pub split_last_dot : String → Option (String × String)
split_last_dot String.[] = none
split_last_dot (String.◌∷◌ c s) = elim (split_last_dot s) [
  | some (a, b) ↦ some (String.◌∷◌ c a, b)
  | none ↦ if code c == b'.' then some (String.[], s) else none
]

-- `naglowek.split(".")`: the first part with the others.
unfoldable pub split_dots : String → String × List String
split_dots String.[] = (String.[], [])
split_dots (String.◌∷◌ c s) =
    let (first, more) = split_dots s in
    if code c == b'.' then (String.[], first ∷ more) else (String.◌∷◌ c first, more)

abbrev pub is_empty : List ℕ → Bool
is_empty [] = true
is_empty (b ∷ bs) = false

-- The two parts of a delivery token, neither of them empty.
abbrev pub two_parts : String × List String → Option (String × String)
two_parts (a, []) = none
two_parts (a, b ∷ []) = if text_eqb a "" then none else if text_eqb b "" then none else some (a, b)
two_parts (a, b ∷ c ∷ more) = none

unfoldable pub relay_of : String → Backend → Relay
relay_of group s = get_or_else (get text_discrete group s.relays) (record { epoch_row = none })

unfoldable pub mailbox_of : String → Backend → Inbox
mailbox_of user s = get_or_else (get text_discrete user s.mailboxes) empty_inbox

-- `wlasciciel !== null && wlasciciel === skrzynka`
abbrev pub is_name : Option String → String → Bool
is_name none user = false
is_name (some name) user = text_eqb name user

-- GET /directory/:username
unfoldable pub directory_route : String → Backend → Answer
directory_route username s = device_list (Directory.lookup_devices s.users username s.tables)

-- POST /key-packages/:deviceId/claim
unfoldable pub claim_package_route : String → ℕ → Backend → Backend × Answer
claim_package_route device now s =
    let (tables, found) = Directory.consume_key_package device now s.tables in
    (
      record s { tables = tables },
      elim found [
        | none ↦ refused 409 "brak dostępnych key packages"
        | some blob ↦ key_package blob
      ],
    )

module _ (x : Crypto) where
  -- `verifyToken`
  abbrev pub unexpired : ℕ → Option TokenPayload → Option TokenPayload
  unexpired now none = none
  unexpired now (some payload) = if ltb payload.expires_at now then none else some payload

  unfoldable pub verify_token : String → ℕ → Option TokenPayload
  unfolding split_last_dot
  verify_token token now = elim (split_last_dot token) [
    | none ↦ none
    | some (body, signature) ↦
        if text_eqb body ""
        then none
        else if text_eqb signature (x.hmac body)
        then unexpired now (x.payload_in body)
        else none
  ]

  -- `requireAuth`, for the token behind `Bearer `.
  unfoldable pub authorised :
      Option String → ℕ → (TokenPayload → Backend → Backend × Answer) → Backend → Backend × Answer
  authorised token now route s = elim (truthy token) [
    | none ↦ (s, refused 401 "brak tokenu dostępowego")
    | some t ↦ elim (verify_token t now) [
      | none ↦ (s, refused 401 "token jest nieważny")
      | some payload ↦ route payload s
    ]
  ]

  -- POST /devices: the decoded row, in which the route sets the owner.
  unfoldable pub register_route : Device → TokenPayload → Backend → Backend × Answer
  register_route d payload s =
      if text_eqb d.id "" || is_empty d.mls_public_key
      then (s, refused 400 "brak deviceId albo klucza publicznego")
      else let (tables, stored) =
          Directory.register_device (record d { user_id = payload.user_id }) s.tables in
        (
          record s { tables = tables },
          if stored then fine else refused 403 "to nie jest Twoje urządzenie",
        )

  -- DELETE /devices/:deviceId
  unfoldable pub remove_route : String → TokenPayload → Backend → Backend × Answer
  remove_route device payload s =
      let (tables, gone) = Directory.remove_device device payload.user_id s.tables in
      (
        record s { tables = tables },
        if gone then fine else refused 403 "to nie jest Twoje urządzenie",
      )

  unfoldable pub publish : String → List (String × List ℕ) → ℕ → Backend → Backend × Answer
  publish device packages now s =
      let (tables, count) = Directory.publish_key_packages device now packages s.tables in
      (
        record s { tables = tables },
        published count (Directory.available_key_packages device tables),
      )

  -- POST /key-packages/:deviceId; `packages` are decoded, each with the id that is drawn for it.
  unfoldable pub publish_route :
      String → List (String × List ℕ) → ℕ → TokenPayload → Backend → Backend × Answer
  publish_route device [] now payload s = (s, refused 400 "oczekiwano niepustej listy key packages")
  publish_route device (k ∷ ks) now payload s =
      if Directory.device_belongs_to device payload.user_id s.tables
      then publish device (k ∷ ks) now s
      else (s, refused 403 "to nie jest Twoje urządzenie")

  -- POST /groups/:groupId/commit; `none` is a number that is no integer or is below 0.
  unfoldable pub commit_route : String → Option ℕ → TokenPayload → Backend → Backend × Answer
  unfolding relay_of
  commit_route group none payload s = (s, refused 400 "nieprawidłowy numer epoki")
  commit_route group (some epoch) payload s =
      let (relay, result) = Relay.claim_epoch (relay_of group s) epoch in
      (record s { relays = set text_discrete group relay s.relays }, claimed result)

  -- `zrealizuj` on the two parts of the header; `none` is an exception of base64.
  unfoldable pub spend : String → String → ℕ → Backend → Backend × Option Redeemed
  spend seed unblinded now s = elim (x.from_base64 seed) [
    | none ↦ (s, none)
    | some a ↦ elim (x.from_base64 unblinded) [
      | none ↦ (s, none)
      | some b ↦
          let (rows, result) = Tokens.redeem x.verify_delivery s.spent a b now in
          (record s { spent = rows }, some result)
    ]
  ]

  -- The envelope goes to the mailbox that the address names.
  unfoldable pub deliver : String → List Socket → List ℕ → ℕ → Backend → Backend × Answer
  unfolding mailbox_of
  deliver user sockets envelope now s =
      let d = Inbox.deposit (mailbox_of user s) sockets envelope now in
      (record s { mailboxes = set text_discrete user d.state s.mailboxes }, deposited d.result)

  unfoldable pub deliver_spent :
      String → List Socket → List ℕ → ℕ → Backend × Option Redeemed → Backend × Answer
  deliver_spent user sockets envelope now (s, none) = (s, refused 500 "Internal Server Error")
  deliver_spent user sockets envelope now (s, some Redeemed.ok) =
      deliver user sockets envelope now s
  deliver_spent user sockets envelope now (s, some Redeemed.invalid) =
      (s, refused 403 "token doręczeniowy odrzucony")
  deliver_spent user sockets envelope now (s, some Redeemed.spent) =
      (s, refused 403 "token doręczeniowy odrzucony")

  -- With the header `X-Delivery-Token`.
  unfoldable pub deposit_with :
      String → List Socket → List ℕ → String → ℕ → Backend → Backend × Answer
  unfolding split_dots
  deposit_with user sockets envelope header now s = elim (two_parts (split_dots header)) [
    | none ↦ (s, refused 400 "nieprawidłowy token doręczeniowy")
    | some (a, b) ↦ deliver_spent user sockets envelope now (spend a b now s)
  ]

  unfoldable pub deposit_checked :
      Bool → String → List Socket → List ℕ → Option String → ℕ → Backend → Backend × Answer
  deposit_checked required user sockets envelope (some header) now s =
      deposit_with user sockets envelope header now s
  deposit_checked required user sockets envelope none now s =
      if required
      then (s, refused 401 "wymagany token doręczeniowy")
      else deliver user sockets envelope now s

  -- POST /inbox/:userId
  unfoldable pub deposit_route :
      Bool → String → List Socket → List ℕ → Option String → ℕ → Backend → Backend × Answer
  deposit_route required user sockets envelope header now s =
      if length envelope == 0
      then (s, refused 400 "pusta koperta")
      else if ltb max_envelope_bytes (length envelope)
      then (s, refused 413 "koperta przekracza limit rozmiaru")
      else deposit_checked required user sockets envelope (truthy header) now s

  -- The device is the token's; what the client put in the address is removed.
  unfoldable pub connect_mailbox : String → Bool → TokenPayload → ℕ → ℕ → Backend → Backend × Answer
  unfolding mailbox_of
  connect_mailbox user upgrade payload handle now s =
      let c = Inbox.connect (mailbox_of user s) upgrade (truthy payload.device_id) handle now in
      (record s { mailboxes = set text_discrete user c.state s.mailboxes }, connected c)

  -- GET /inbox/:userId/connect
  unfoldable pub connect_route : String → Bool → Option String → ℕ → ℕ → Backend → Backend × Answer
  connect_route user upgrade token handle now s = elim (truthy token) [
    | none ↦ (s, refused 401 "brak tokenu dostępowego")
    | some t ↦ elim (verify_token t now) [
      | none ↦ (s, refused 401 "token jest nieważny")
      | some payload ↦
          if is_name (Directory.username_for s.users payload.user_id) user
          then connect_mailbox user upgrade payload handle now s
          else (s, refused 403 "to nie jest Twoja skrzynka")
    ]
  ]
