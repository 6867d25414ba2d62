-- ===== src/Web/History/Marks.antt =====
-- Changes of the history, and the conversations that they are about (web/src/lib/historia.ts).
use mekamb_chat.Common.{
  ℕ, ◌≡◌, ◌≢◌, refl, ◌∙◌, String, Bool, false, Option, Option-cases, Bool-cases, inl, inr, List, [],
  ◌∷◌, arith, leb, ◌==◌, text_eqb, text_eqb→ne, text_discrete, any, filter, length, is_some,
  get_or_else,
}
use mekamb_chat.Common.Keyed.{get, set, get-set_ne, get-delete_ne}
use mekamb_chat.Web.History.{
  Message, Conversations, Vault, load, messages_of, save_conversation, ensure_conversation,
  append_message, mark_read, remove_conversation, trim_each, trim_vanishing,
}

-- A change of the history.
pub data Edit : Type 0 where
  saves : String → Option String → List Message → Edit
  ensures : String → Option String → Edit
  appends : String → Option String → Message → Edit
  marks : String → ℕ → Edit
  removes : String → Edit
  trims : List (String × ℕ) → Edit

unfoldable pub edit : Edit → Vault → Vault
edit (saves key name messages) v = save_conversation key name messages v
edit (ensures key name) v = ensure_conversation key name v
edit (appends key name w) v = append_message key name w v
edit (marks key until) v = mark_read key until v
edit (removes key) v = remove_conversation key v
edit (trims limits) v = (trim_vanishing limits v).0

abbrev pub is_about : String → Edit → Bool
is_about j (saves key name messages) = text_eqb key j
is_about j (ensures key name) = text_eqb key j
is_about j (appends key name w) = text_eqb key j
is_about j (marks key until) = text_eqb key j
is_about j (removes key) = text_eqb key j
is_about j (trims limits) = any (λ limit. text_eqb limit.0 j) limits

trim_each_other :
    (j : String) (limits : List (String × ℕ)) (m : Conversations)
    → any (λ limit. text_eqb limit.0 j) limits ≡ false
    → get text_discrete j (trim_each limits m).0 ≡ get text_discrete j m
unfolding trim_each
trim_each_other j [] m h = refl
trim_each_other j ((key, limit) ∷ limits) m h =
    let other : key ≢ j = text_eqb→ne key j (ground arith) in
    let later : any (λ l. text_eqb l.0 j) limits ≡ false = ground arith in
    elim (Option-cases (get text_discrete key m)) [
      | inl e ↦ rw (trim_each, e) (trim_each_other j limits m later)
      | inr (c, e) ↦
          let left = filter (λ w. leb limit w.time) c.messages in
          elim (Bool-cases (length left == length c.messages)) [
            | inl same ↦ rw (trim_each, e, same) (trim_each_other j limits m later)
            | inr fewer ↦
                rw (trim_each, e, fewer)
                  (trim_each_other j limits (set text_discrete key (record c { messages = left }) m)
                      later
                    ∙ get-set_ne text_discrete key j (record c { messages = left }) m other)
          ]
    ]

-- A conversation that a change is not about stays as it is, although all lie in one record that is
-- read and written whole.
pub edit_other :
    (j : String) (e : Edit) (v : Vault)
    → is_about j e ≡ false
    → get text_discrete j (load (edit e v)) ≡ get text_discrete j (load v)
unfolding edit save_conversation ensure_conversation append_message mark_read remove_conversation
    trim_vanishing load
edit_other j (saves key name messages) v h =
    get-set_ne text_discrete key j _ (load v) (text_eqb→ne key j h)
edit_other j (ensures key name) v h = elim (Bool-cases (is_some (get text_discrete key (load v)))) [
  | inl e ↦ rw (edit, ensure_conversation, e) refl
  | inr e ↦
      rw (edit, ensure_conversation, e)
        (get-set_ne text_discrete key j _ (load v) (text_eqb→ne key j h))
]
edit_other j (appends key name w) v h =
    elim (Bool-cases
      (any (λ o. text_eqb o.id w.id) (messages_of (get text_discrete key (load v))))) [
        | inl e ↦ rw (edit, append_message, e) refl
        | inr e ↦
            rw (edit, append_message, e)
              (get-set_ne text_discrete key j _ (load v) (text_eqb→ne key j h))
      ]
edit_other j (marks key until) v h = elim (Option-cases (get text_discrete key (load v))) [
  | inl e ↦ rw (edit, mark_read, e) refl
  | inr (c, e) ↦ elim (Bool-cases (leb until (get_or_else c.read_until 0))) [
    | inl k ↦ rw (edit, mark_read, e, k) refl
    | inr k ↦
        rw (edit, mark_read, e, k) (get-set_ne text_discrete key j _ (load v) (text_eqb→ne key j h))
  ]
]
edit_other j (removes key) v h = elim (Bool-cases (is_some (get text_discrete key (load v)))) [
  | inl e ↦
      rw (edit, remove_conversation, e)
        (get-delete_ne text_discrete key j (load v) (text_eqb→ne key j h))
  | inr e ↦ rw (edit, remove_conversation, e) refl
]
edit_other j (trims limits) v h = elim (Bool-cases (trim_each limits (load v)).1) [
  | inl e ↦ rw (edit, trim_vanishing, e) (trim_each_other j limits (load v) h)
  | inr e ↦ rw (edit, trim_vanishing, e) refl
]
