-- ===== src/Web/History/ReadMarks.antt =====
-- How far each conversation was read (web/src/lib/historia.ts).
use mekamb_chat.Common.{
  ℕ, ◌≡◌, refl, subst, ◌∙◌, ap, max, String, Bool, true, Option-cases, Bool-cases, inl, inr, List,
  [], ◌∷◌, if◌then◌else◌, arith, leb, ◌==◌, text_eqb, text_eqb→eq, text_eqb_refl, text_discrete,
  any, filter, length, is_some, get_or_else,
}
use mekamb_chat.Common.Keyed.{get, set, get-set_self, get-set_ne, get-delete_self}
use mekamb_chat.Web.History.{
  Conversation, Conversations, Vault, load, messages_of, read_until_of, save_conversation,
  ensure_conversation, append_message, mark_read, remove_conversation, trim_each, trim_vanishing,
}
use mekamb_chat.Web.History.Marks.{
  Edit, saves, ensures, appends, marks, removes, trims, edit, is_about, edit_other,
}

abbrev pub mark_of : String → Conversations → ℕ
mark_of j m = get_or_else (read_until_of (get text_discrete j m)) 0

-- The mark of a conversation after a change of it.
abbrev pub mark_after : Edit → Bool → ℕ → ℕ
mark_after (marks key until) there old = if there then max old until else old
mark_after (removes key) there old = 0
mark_after e there old = old

mark_trim_each :
    (j : String) (limits : List (String × ℕ)) (m : Conversations)
    → read_until_of (get text_discrete j (trim_each limits m).0)
      ≡ read_until_of (get text_discrete j m)
unfolding trim_each
mark_trim_each j [] m = refl
mark_trim_each j ((key, limit) ∷ limits) m = elim (Option-cases (get text_discrete key m)) [
  | inl e ↦ rw (trim_each, e) (mark_trim_each j limits m)
  | inr (c, e) ↦
      let left = filter (λ w. leb limit w.time) c.messages in
      let trimmed : Conversation = record c { messages = left } in
      elim (Bool-cases (length left == length c.messages)) [
        | inl same ↦ rw (trim_each, e, same) (mark_trim_each j limits m)
        | inr fewer ↦
            rw (trim_each, e, fewer)
              (mark_trim_each j limits (set text_discrete key trimmed m)
                ∙ (elim (Bool-cases (text_eqb key j)) [
                  | inl here ↦
                      subst
                        (λ i.
                          read_until_of (get text_discrete i (set text_discrete key trimmed m))
                          ≡ read_until_of (get text_discrete i m))
                        (text_eqb→eq key j here)
                        (rw (get-set_self text_discrete key trimmed m, e) refl)
                  | inr other ↦ ap read_until_of (
                      get-set_ne text_discrete key j trimmed m
                        (λ s. cc (other, s, text_eqb_refl j)))
                ]))
      ]
]

own_mark :
    (e : Edit) (key : String) (v : Vault)
    → is_about key e ≡ true
    → mark_of key (load (edit e v))
      ≡ mark_after e (is_some (get text_discrete key (load v))) (mark_of key (load v))
unfolding edit save_conversation ensure_conversation append_message mark_read remove_conversation
    trim_vanishing load
own_mark (saves k name messages) key v h =
    rw (text_eqb→eq k key h) (rw (get-set_self text_discrete key _ (load v)) refl)
own_mark (ensures k name) key v h =
    rw (text_eqb→eq k key h) (elim (Option-cases (get text_discrete key (load v))) [
      | inl e ↦
          rw (edit, ensure_conversation, e) (rw (get-set_self text_discrete key _ (load v)) refl)
      | inr (c, e) ↦ rw (edit, ensure_conversation, e) (rw e refl)
    ])
own_mark (appends k name w) key v h =
    rw (text_eqb→eq k key h)
      (elim (Bool-cases
        (any (λ o. text_eqb o.id w.id) (messages_of (get text_discrete key (load v))))) [
          | inl e ↦ rw (edit, append_message, e) refl
          | inr e ↦
              rw (edit, append_message, e) (rw (get-set_self text_discrete key _ (load v)) refl)
        ])
own_mark (marks k until) key v h =
    rw (text_eqb→eq k key h) (elim (Option-cases (get text_discrete key (load v))) [
      | inl e ↦ rw (edit, mark_read, e) (rw e refl)
      | inr (c, e) ↦ elim (Bool-cases (leb until (get_or_else c.read_until 0))) [
        | inl l ↦ rw (edit, mark_read, e, l) (rw e (ground arith))
        | inr l ↦
            rw (edit, mark_read, e, l)
              (rw (get-set_self text_discrete key _ (load v)) (ground arith))
      ]
    ])
own_mark (removes k) key v h =
    rw (text_eqb→eq k key h) (elim (Option-cases (get text_discrete key (load v))) [
      | inl e ↦ rw (edit, remove_conversation, e) (rw e refl)
      | inr (c, e) ↦
          rw (edit, remove_conversation, e) (rw (get-delete_self text_discrete key (load v)) refl)
    ])
own_mark (trims limits) key v h = elim (Bool-cases (trim_each limits (load v)).1) [
  | inl e ↦
      rw (edit, trim_vanishing, e) (ap (λ o. get_or_else o 0) (mark_trim_each key limits (load v)))
  | inr e ↦ rw (edit, trim_vanishing, e) refl
]

-- How far a conversation was read: only marking it raises that, to the greater of the two times,
-- and only removing it clears it; saving, appending, trimming and changes of other conversations
-- leave it.
pub edit_mark :
    (e : Edit) (key : String) (v : Vault)
    → mark_of key (load (edit e v)) ≡ (
        if is_about key e
        then mark_after e (is_some (get text_discrete key (load v))) (mark_of key (load v))
        else mark_of key (load v))
edit_mark e key v = elim (Bool-cases (is_about key e)) [
  | inl h ↦ rw h (own_mark e key v h)
  | inr h ↦ rw h (ap (λ o. get_or_else (read_until_of o) 0) (edit_other key e v h))
]
