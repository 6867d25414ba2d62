-- ===== src/Web/History.antt =====
-- The history of conversations that the browser keeps in its vault (web/src/lib/historia.ts). Each
-- operation is one read and one write, as `zSerializacja` runs them.
use mekamb_chat.Common.{
  ℕ, suc, ◌+◌, ◌*◌, String, Bool, true, false, not, ◌&&◌, ◌||◌, Option, none, some, List, [], ◌∷◌,
  ◌++◌, map, if◌then◌else◌, ltb, leb, ◌==◌, get_or_else, is_some, text_eqb, text_discrete, any,
  filter, length, count, sum_by, get_last?, take_last,
}
use mekamb_chat.Common.Keyed.{get, set, delete}
use mekamb_chat.Web.Receipts.{SendState}
pub mod Marks
pub mod Appending
pub mod Limit
pub mod ReadMarks
pub mod Merging
pub mod Union
pub mod MergedMarks

-- What the history carries of `ReceivedAttachment`, which other code makes and reads.
pub record Attachment : Type 0 where
  pub key : List ℕ
  pub nonce : List ℕ
  pub about : String

-- `ZapisRozmowy`
pub record CallTrace : Type 0 where
  pub video : Bool
  pub seconds : Option ℕ
  pub outgoing : Bool

-- `Wiadomosc`
pub record Message : Type 0 where
  pub id : String
  pub author : String
  pub text : String
  pub time : ℕ
  pub own : Bool
  pub attachment : Option Attachment
  pub call : Option CallTrace
  pub state : Option SendState

-- `ZapisanaRozmowa`
pub record Conversation : Type 0 where
  pub name : String
  pub messages : List Message
  pub read_until : Option ℕ

abbrev pub Conversations : Type 0
Conversations = List (String × Conversation)

-- What the vault holds: nothing, bytes that are not a history, or a history with its version.
pub data Vault : Type 0 where
  absent unreadable : Vault
  stored : ℕ → Conversations → Vault

abbrev pub message_limit : ℕ
message_limit = 500

abbrev pub version : ℕ
version = 6

-- `CZYTANE_WERSJE`
abbrev pub is_readable : ℕ → Bool
is_readable v = v == 3 || (v == 4 || (v == 5 || v == 6))

-- `wczytajWszystko`
unfoldable pub load : Vault → Conversations
load absent = []
load unreadable = []
load (stored v m) = if is_readable v then m else []

abbrev pub name_of : Option Conversation → String
name_of none = ""
name_of (some c) = c.name

abbrev pub messages_of : Option Conversation → List Message
messages_of none = []
messages_of (some c) = c.messages

abbrev pub read_until_of : Option Conversation → Option ℕ
read_until_of none = none
read_until_of (some c) = c.read_until

-- `wczytajRozmowe`
unfoldable pub load_conversation : String → Vault → List Message
unfolding load
load_conversation key v = messages_of (get text_discrete key (load v))

-- `zapiszRozmowe`
unfoldable pub save_conversation : String → Option String → List Message → Vault → Vault
unfolding load
save_conversation key name messages v =
    let m = load v in
    let old = get text_discrete key m in
    stored version (
      set text_discrete key
        (record {
          name = get_or_else name (name_of old);
          messages = take_last message_limit messages;
          read_until = read_until_of old;
        })
        m)

-- `zapewnijRozmowe`
unfoldable pub ensure_conversation : String → Option String → Vault → Vault
unfolding load
ensure_conversation key name v =
    let m = load v in
    if is_some (get text_discrete key m)
    then v
    else stored version (
        set text_discrete key
          (record { name = get_or_else name ""; messages = []; read_until = none }) m)

-- `dopiszWiadomosc`
unfoldable pub append_message : String → Option String → Message → Vault → Vault
unfolding load
append_message key name w v =
    let m = load v in
    let old = get text_discrete key m in
    if any (λ o. text_eqb o.id w.id) (messages_of old)
    then v
    else stored version (
        set text_discrete key
          (record {
            name = get_or_else name (name_of old);
            messages = take_last message_limit (messages_of old ++ w ∷ []);
            read_until = read_until_of old;
          })
          m)

-- `oznaczPrzeczytane`
unfoldable pub mark_read : String → ℕ → Vault → Vault
unfolding load
mark_read key until v = elim (get text_discrete key (load v)) [
  | none ↦ v
  | some c ↦
      if leb until (get_or_else c.read_until 0)
      then v
      else stored version (set text_discrete key (record c { read_until = some until }) (load v))
]

-- `usunRozmowe`
unfoldable pub remove_conversation : String → Vault → Vault
unfolding load
remove_conversation key v =
    if is_some (get text_discrete key (load v))
    then stored version (delete text_discrete key (load v))
    else v

-- The loop of `przytnijZnikajace`: the conversations, and whether one lost a message.
unfoldable pub trim_each : List (String × ℕ) → Conversations → Conversations × Bool
trim_each [] m = (m, false)
trim_each ((key, limit) ∷ limits) m = elim (get text_discrete key m) [
  | none ↦ trim_each limits m
  | some c ↦
      let left = filter (λ w. leb limit w.time) c.messages in
      let rest = trim_each limits (set text_discrete key (record c { messages = left }) m) in
      if length left == length c.messages then trim_each limits m else (rest.0, true)
]

-- `przytnijZnikajace`
unfoldable pub trim_vanishing : List (String × ℕ) → Vault → Vault × Bool
unfolding load trim_each
trim_vanishing limits v =
    let trimmed = trim_each limits (load v) in
    if trimmed.1 then (stored version trimmed.0, true) else (v, false)

-- `PozycjaListy`
pub record Row : Type 0 where
  pub key : String
  pub name : String
  pub last : Option Message
  pub unread : ℕ

abbrev pub unread_of : Conversation → ℕ
unread_of c = count (λ w. not w.own && ltb (get_or_else c.read_until 0) w.time) c.messages

abbrev pub row_of : String × Conversation → Row
row_of (key, c) = record {
  key = key;
  name = c.name;
  last = get_last? c.messages;
  unread = unread_of c;
}

abbrev pub last_time : Row → ℕ
last_time r = elim r.last [ none ↦ 0 | some w ↦ w.time ]

-- One step of a stable sort, latest first.
abbrev pub insert_row : Row → List Row → List Row
insert_row r [] = r ∷ []
insert_row r (s ∷ rows) =
    if ltb (last_time r) (last_time s) then s ∷ insert_row r rows else r ∷ s ∷ rows

abbrev pub sort_rows : List Row → List Row
sort_rows [] = []
sort_rows (r ∷ rows) = insert_row r (sort_rows rows)

-- `listaRozmow`
unfoldable pub list_conversations : Vault → List Row
unfolding load
list_conversations v = sort_rows (map row_of (load v))

-- `ileNieprzeczytanych`
unfoldable pub count_unread : Vault → ℕ
unfolding list_conversations
count_unread v = sum_by (λ r. r.unread) (list_conversations v)
