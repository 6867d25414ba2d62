-- ===== src/Web/History/Limit.antt =====
-- The number of messages of a conversation (web/src/lib/historia.ts).
use mekamb_chat.Common.{
  ℕ, ◌≡◌, refl, subst, String, Bool, true, some, Option-cases, Bool-cases, inl, inr, List, [], ◌∷◌,
  ◌++◌, arith, leb, ◌==◌, text_eqb, text_discrete, any, all, filter, length, length-filter-le,
  length-take_last, is_some, take_last, get_or_else,
}
use mekamb_chat.Common.Keyed.{get, set, delete}
use mekamb_chat.Web.History.{
  Message, Conversation, Conversations, Vault, message_limit, load, messages_of, save_conversation,
  ensure_conversation, append_message, mark_read, remove_conversation, trim_each, trim_vanishing,
}
use mekamb_chat.Web.History.Marks.{Edit, saves, ensures, appends, marks, removes, trims, edit}

abbrev pub is_short : Conversation → Bool
is_short c = leb (length c.messages) message_limit

-- No conversation has more messages than the limit.
pub record Short (m : Conversations) : Type 0 where
  pub short : all (λ entry. is_short entry.1) m ≡ true

short_set :
    (key : String) (c : Conversation) (m : Conversations)
    → all (λ entry. is_short entry.1) m ≡ true
    → is_short c ≡ true
    → all (λ entry. is_short entry.1) (set text_discrete key c m) ≡ true
unfolding set
short_set key c [] h k = ground arith
short_set key c ((j, d) ∷ m) h k = ground (arith, short_set key c m)

short_delete :
    (key : String) (m : Conversations)
    → all (λ entry. is_short entry.1) m ≡ true
    → all (λ entry. is_short entry.1) (delete text_discrete key m) ≡ true
unfolding delete
short_delete key [] h = refl
short_delete key ((j, d) ∷ m) h = ground (arith, short_delete key m)

short_get :
    (key : String) (c : Conversation) (m : Conversations)
    → all (λ entry. is_short entry.1) m ≡ true
    → get text_discrete key m ≡ some c
    → is_short c ≡ true
unfolding get
short_get key c [] h k = cc
short_get key c ((j, d) ∷ m) h k = elim (Bool-cases (text_eqb j key)) [
  | inl e ↦
      let found : get text_discrete key ((j, d) ∷ m) ≡ some d = ground arith in
      let same : d ≡ c = cc (k, found) in subst (λ x. is_short x ≡ true) same (ground arith)
  | inr e ↦ short_get key c m (ground arith) (ground arith)
]

Short-set :
    (key : String) (c : Conversation) (m : Conversations)
    → Short m
    → is_short c ≡ true
    → Short (set text_discrete key c m)
Short-set key c m h k = record { short = short_set key c m h.short k }

short_trimmed :
    (limit : ℕ) (c : Conversation)
    → is_short c ≡ true
    → leb (length (filter (λ w. leb limit w.time) c.messages)) message_limit ≡ true
short_trimmed limit c h = ground (arith, h, length-filter-le (λ w. leb limit w.time) c.messages)

Short-trim_each :
    (limits : List (String × ℕ)) (m : Conversations) → Short m → Short (trim_each limits m).0
unfolding trim_each
Short-trim_each [] m h = h
Short-trim_each ((key, limit) ∷ limits) m h = elim (Option-cases (get text_discrete key m)) [
  | inl e ↦ rw (trim_each, e) (Short-trim_each limits m h)
  | inr (c, e) ↦
      let left = filter (λ w. leb limit w.time) c.messages in
      let trimmed : Conversation = record c { messages = left } in
      elim (Bool-cases (length left == length c.messages)) [
        | inl same ↦ rw (trim_each, e, same) (Short-trim_each limits m h)
        | inr fewer ↦
            rw (trim_each, e, fewer)
              (Short-trim_each limits (set text_discrete key trimmed m)
                (Short-set key trimmed m h (short_trimmed limit c (short_get key c m h.short e))))
      ]
]

kept_short : (ms : List Message) → leb (length (take_last message_limit ms)) message_limit ≡ true
kept_short ms = ground (arith, length-take_last message_limit ms)

edit-Short : (e : Edit) (v : Vault) → Short (load v) → Short (load (edit e v))
unfolding edit save_conversation ensure_conversation append_message mark_read remove_conversation
    trim_vanishing load
edit-Short (saves key name messages) v h = Short-set key _ (load v) h (kept_short messages)
edit-Short (ensures key name) v h = elim (Bool-cases (is_some (get text_discrete key (load v)))) [
  | inl e ↦ rw (edit, ensure_conversation, e) h
  | inr e ↦ rw (edit, ensure_conversation, e) (Short-set key _ (load v) h (ground arith))
]
edit-Short (appends key name w) v h =
    let old = messages_of (get text_discrete key (load v)) in
    elim (Bool-cases (any (λ o. text_eqb o.id w.id) old)) [
      | inl e ↦ rw (edit, append_message, e) h
      | inr e ↦
          rw (edit, append_message, e) (Short-set key _ (load v) h (kept_short (old ++ w ∷ [])))
    ]
edit-Short (marks key until) v h = elim (Option-cases (get text_discrete key (load v))) [
  | inl e ↦ rw (edit, mark_read, e) h
  | inr (c, e) ↦ elim (Bool-cases (leb until (get_or_else c.read_until 0))) [
    | inl k ↦ rw (edit, mark_read, e, k) h
    | inr k ↦
        rw (edit, mark_read, e, k) (Short-set key _ (load v) h (short_get key c (load v) h.short e))
  ]
]
edit-Short (removes key) v h = elim (Bool-cases (is_some (get text_discrete key (load v)))) [
  | inl e ↦ rw (edit, remove_conversation, e) (record { short = short_delete key (load v) h.short })
  | inr e ↦ rw (edit, remove_conversation, e) h
]
edit-Short (trims limits) v h = elim (Bool-cases (trim_each limits (load v)).1) [
  | inl e ↦ rw (edit, trim_vanishing, e) (Short-trim_each limits (load v) h)
  | inr e ↦ rw (edit, trim_vanishing, e) h
]

abbrev pub edit_all : List Edit → Vault → Vault
edit_all [] v = v
edit_all (e ∷ es) v = edit_all es (edit e v)

-- A history that starts with at most 500 messages in each conversation, such as the empty one, has
-- at most 500 in each after any changes.
pub edit_all-Short : (es : List Edit) (v : Vault) → Short (load v) → Short (load (edit_all es v))
edit_all-Short [] v h = h
edit_all-Short (e ∷ es) v h = edit_all-Short es (edit e v) (edit-Short e v h)
