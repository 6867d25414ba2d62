-- ===== src/Web/History/MergedMarks.antt =====
-- web/src/lib/historia.ts, `scalHistorie`: what becomes of the conversations that were there.
use mekamb_chat.Common.{
  ℕ, ◌≤◌, ◌≡◌, refl, subst, arith, String, Bool, true, Option, some, [], ◌∷◌, text_discrete,
  get_or_else, is_some, Bool-cases, inl, inr,
}
use mekamb_chat.Common.Keyed.{get, set, get-set_self, get-set_ne}
use mekamb_chat.Web.History.{
  Conversation, Conversations, Vault, absent, unreadable, stored, load, read_until_of, is_readable,
}
use mekamb_chat.Web.History.Merging.{
  Platform, Merged, joined_mark, merge_conversations, merge_history,
}

-- The time until which a conversation is read, 0 for none.
unfoldable pub mark_of : String → Conversations → ℕ
mark_of k m = get_or_else (read_until_of (get text_discrete k m)) 0

unfoldable pub has_conversation : String → Conversations → Bool
has_conversation k m = is_some (get text_discrete k m)

-- Each conversation is still there, and is read at least as far.
unfoldable pub Grows : String → Conversations → Conversations → Type 0
Grows k m m' =
    (has_conversation k m ≡ true → has_conversation k m' ≡ true) × (mark_of k m ≤ mark_of k m')

joined_mark_le : (a b : Option ℕ) → get_or_else a 0 ≤ get_or_else (joined_mark a b) 0
unfolding joined_mark
joined_mark_le a b = ground arith

set-Grows :
    (k key : String) (c : Conversation) (m : Conversations)
    → mark_of key m ≤ get_or_else c.read_until 0
    → Grows k m (set text_discrete key c m)
unfolding Grows mark_of has_conversation
set-Grows k key c m h = elim (text_discrete key k) [
  | yes e ↦
      let found : get text_discrete k (set text_discrete key c m) ≡ some c =
        subst (λ j. get text_discrete j (set text_discrete key c m) ≡ some c) e
          (get-set_self text_discrete key c m) in
      rw found (λ _. refl, subst (λ j. mark_of j m ≤ get_or_else c.read_until 0) e h)
  | no apart ↦ rw (get-set_ne text_discrete key k c m apart) (λ there. there, omega arith)
]

Grows-trans : (k : String) (a b c : Conversations) → Grows k a b → Grows k b c → Grows k a c
unfolding Grows
Grows-trans k a b c (p, q) (r, s) = (λ h. r (p h), omega (arith, q, s))

merge_conversations-Grows :
    (u : Platform) (k : String) (l m : Conversations) (n : Merged)
    → Grows k m (merge_conversations u l m n).0
unfolding merge_conversations mark_of
merge_conversations-Grows u k [] m n = unfold Grows in (λ h. h, omega arith)
merge_conversations-Grows u k ((key, theirs) ∷ l) m n =
    Grows-trans k m _ _
      (set-Grows k key _ m
        (joined_mark_le (read_until_of (get text_discrete key m)) theirs.read_until))
      (merge_conversations-Grows u k l _ _)

-- Merging the history of another device loses no conversation and never takes back how far one was
-- read; a history that cannot be read changes nothing.
pub merge_history-Grows :
    (u : Platform) (k : String) (theirs v : Vault)
    → Grows k (load v) (load (merge_history u theirs v).0)
unfolding merge_history load
merge_history-Grows u k absent v = unfold Grows in (λ h. h, omega arith)
merge_history-Grows u k unreadable v = unfold Grows in (λ h. h, omega arith)
merge_history-Grows u k (stored n theirs) v = elim (Bool-cases (is_readable n)) [
  | inl e ↦ rw (merge_history, e) (merge_conversations-Grows u k theirs (load v) _)
  | inr e ↦ rw (merge_history, e) (unfold Grows in (λ h. h, omega arith))
]
