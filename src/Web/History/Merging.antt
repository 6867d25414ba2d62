-- ===== src/Web/History/Merging.antt =====
-- web/src/lib/historia.ts: `kluczWiadomosci`, `polaczWiadomosci` and `scalWiadomosci`, the merging of
-- the messages of two devices of one account.
use mekamb_chat.Common.{
  ℕ, ◌+◌, String, append_text, Bool, true, false, Option, none, some, List, [], ◌∷◌, map, ltb, ◌==◌,
  if◌then◌else◌, text_eqb, text_discrete, take_last, is_some, get_or_else, length, max, ◌-◌,
}
use mekamb_chat.Common.Keyed.{get, set}
use mekamb_chat.Web.Receipts.{SendState, higher_state}
use mekamb_chat.Web.History.{
  Message, Conversation, Conversations, Vault, absent, unreadable, stored, message_limit, version,
  is_readable, load, name_of, messages_of, read_until_of,
}

-- Of the platform: a number in a template string, and `<` of strings.
pub record Platform : Type 0 where
  pub print : ℕ → String
  pub before : String → String → Bool

-- `kluczWiadomosci`
unfoldable pub message_key : Platform → Message → String
message_key u w =
    if text_eqb w.id ""
    then append_text "t:" (
        append_text w.author
          (append_text " " (append_text (u.print w.time) (append_text " " w.text))))
    else append_text "id:" w.id

abbrev first_of {ℓ} : {A : Type ℓ} → Option A → Option A → Option A
first_of (some a) b = some a
first_of none b = b

abbrev pub joined_state : Option SendState → Option SendState → Option SendState
joined_state (some a) (some b) = some (higher_state a b)
joined_state (some a) none = some a
joined_state none b = b

-- `polaczWiadomosci`
unfoldable pub join_messages : Message → Message → Message
join_messages a b = record {
  id = a.id;
  author = a.author;
  text = a.text;
  time = a.time;
  own = a.own;
  attachment = first_of a.attachment b.attachment;
  call = a.call;
  state = joined_state a.state b.state;
}

abbrev pub ByKey : Type 0
ByKey = List (String × Message)

-- The first loop of `scalWiadomosci`.
unfoldable pub put_ours : Platform → List Message → ByKey → ByKey
put_ours u [] m = m
put_ours u (w ∷ l) m = put_ours u l (set text_discrete (message_key u w) w m)

-- What the second loop puts in for a message of the other device.
unfoldable pub met : Option Message → Message → Message
met none w = w
met (some old) w = join_messages old w

-- The second loop; traces of calls are passed over.
unfoldable pub put_theirs : Platform → List Message → ByKey → ByKey
put_theirs u [] m = m
put_theirs u (w ∷ l) m =
    let k = message_key u w in
    let joined = put_theirs u l (set text_discrete k (met (get text_discrete k m) w) m) in
    let passed = put_theirs u l m in if is_some w.call then passed else joined

-- `a.czas - b.czas || (a.id < b.id ? -1 : a.id > b.id ? 1 : 0)`, whether it is positive.
unfoldable pub comes_after : Platform → Message → Message → Bool
comes_after u a b =
    if ltb b.time a.time
    then true
    else if a.time == b.time
    then (if u.before a.id b.id then false else u.before b.id a.id)
    else false

-- The platform's stable sort: a message goes before the first that comes after it.
unfoldable pub insert_message : Platform → Message → List Message → List Message
insert_message u w [] = w ∷ []
insert_message u w (x ∷ l) =
    let rest = insert_message u w l in if comes_after u w x then x ∷ rest else w ∷ x ∷ l

unfoldable pub sort_messages : Platform → List Message → List Message
sort_messages u [] = []
sort_messages u (w ∷ l) = insert_message u w (sort_messages u l)

abbrev pub values_of : ByKey → List Message
values_of m = map (λ e. e.1) m

-- `scalWiadomosci`
unfoldable pub merge_messages : Platform → List Message → List Message → List Message
merge_messages u ours theirs =
    take_last message_limit (sort_messages u (values_of (put_theirs u theirs (put_ours u ours []))))

-- The new messages and conversations, `WynikScalania`.
pub record Merged : Type 0 where
  pub conversations : ℕ
  pub messages : ℕ

-- `nasza?.rozmowca || przychodzaca.rozmowca`
abbrev name_or : String → String → String
name_or ours theirs = if text_eqb ours "" then theirs else ours

-- `Math.max(nasza?.przeczytaneDo ?? 0, przychodzaca.przeczytaneDo ?? 0) || undefined`
unfoldable pub joined_mark : Option ℕ → Option ℕ → Option ℕ
joined_mark ours theirs =
    let mark = max (get_or_else ours 0) (get_or_else theirs 0) in
    if mark == 0 then none else some mark

-- The loop of `scalHistorie` over the conversations of the other device.
unfoldable pub merge_conversations :
    Platform → Conversations → Conversations → Merged → Conversations × Merged
merge_conversations u [] m n = (m, n)
merge_conversations u ((key, theirs) ∷ l) m n =
    let ours = get text_discrete key m in
    let messages = merge_messages u (messages_of ours) theirs.messages in
    let merged : Conversation = record {
      name = name_or (name_of ours) theirs.name;
      messages = messages;
      read_until = joined_mark (read_until_of ours) theirs.read_until;
    } in
    merge_conversations u l (set text_discrete key merged m) (record {
      conversations = n.conversations + (if is_some ours then 0 else 1);
      messages = n.messages + (length messages - length (messages_of ours));
    })

-- `scalHistorie`; none for what cannot be read, with the vault as it was.
unfoldable pub merge_history : Platform → Vault → Vault → Vault × Option Merged
unfolding load
merge_history u absent v = (v, none)
merge_history u unreadable v = (v, none)
merge_history u (stored n theirs) v =
    let result =
      merge_conversations u theirs (load v) (record { conversations = 0; messages = 0 }) in
    if is_readable n then (stored version result.0, some result.1) else (v, none)
