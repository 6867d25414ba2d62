-- ===== src/Web/Receipts/Sets.antt =====
-- What one receipt does to the sets of a conversation (web/src/lib/potwierdzenia.ts).
use mekamb_chat.Common.{
  String, Bool, true, false, not, ◌&&◌, ◌||◌, ◌≡◌, refl, sym, subst, Option-cases, Bool-cases, inl,
  inr, List, [], ◌∷◌, text_eqb, text_eqb→eq, arith, any-append,
}
use mekamb_chat.Common.Keyed.{get, get-set_self, get-set_ne}
use mekamb_chat.Web.Receipts.{
  Kind, delivered, read, kind_discrete, Room, member, set_add, set_delete, ids_of, forget_delivered,
  add_to_set, add_to_room,
}

abbrev pub is_read : Kind → Bool
is_read read = true
is_read delivered = false

text_eqb_comm : (a b : String) → text_eqb a b ≡ text_eqb b a
text_eqb_comm a b = ground arith

member-set_add :
    (j i : String) (ids : List String) → member j (set_add i ids) ≡ (text_eqb j i || member j ids)
unfolding set_add
member-set_add j i ids = elim (Bool-cases (member i ids)) [
  | inl e ↦ elim (Bool-cases (text_eqb j i)) [
    | inl same ↦ rw (e, same) (subst (λ k. member k ids ≡ true) (sym (text_eqb→eq j i same)) e)
    | inr differ ↦ rw (e, differ) refl
  ]
  | inr e ↦ rw (e, any-append (text_eqb j) ids (i ∷ [])) (ground arith)
]

member-set_delete :
    (j i : String) (ids : List String)
    → member j (set_delete i ids) ≡ (not (text_eqb j i) && member j ids)
unfolding set_delete
member-set_delete j i [] = ground arith
member-set_delete j i (k ∷ ids) = ground (arith, member-set_delete j i ids)

ids-add_to_set :
    (kind : Kind) (j i : String) (room : Room)
    → member j (ids_of kind (add_to_set kind i room))
      ≡ (text_eqb j i || member j (ids_of kind room))
unfolding add_to_set
ids-add_to_set kind j i room =
    rw (get-set_self kind_discrete kind (set_add i (ids_of kind room)) room)
      (member-set_add j i (ids_of kind room))

read-add_delivered :
    (i : String) (room : Room) → ids_of read (add_to_set delivered i room) ≡ ids_of read room
unfolding add_to_set
read-add_delivered i room =
    rw (get-set_ne kind_discrete delivered read (set_add i (ids_of delivered room)) room (λ e. cc))
      refl

delivered-add_read :
    (i : String) (room : Room) → ids_of delivered (add_to_set read i room) ≡ ids_of delivered room
unfolding add_to_set
delivered-add_read i room =
    rw (get-set_ne kind_discrete read delivered (set_add i (ids_of read room)) room (λ e. cc)) refl

read-forget : (i : String) (room : Room) → ids_of read (forget_delivered i room) ≡ ids_of read room
unfolding forget_delivered
read-forget i room = elim (Option-cases (get kind_discrete delivered room)) [
  | inl e ↦ rw (e, forget_delivered) refl
  | inr (ids, e) ↦
      rw (e, forget_delivered)
        (rw (get-set_ne kind_discrete delivered read (set_delete i ids) room (λ e. cc)) refl)
]

delivered-forget :
    (j i : String) (room : Room)
    → member j (ids_of delivered (forget_delivered i room))
      ≡ (not (text_eqb j i) && member j (ids_of delivered room))
unfolding forget_delivered
delivered-forget j i room = elim (Option-cases (get kind_discrete delivered room)) [
  | inl e ↦ rw (e, forget_delivered) (ground arith)
  | inr (ids, e) ↦
      rw (e, forget_delivered)
        (rw (get-set_self kind_discrete delivered (set_delete i ids) room)
          (member-set_delete j i ids))
]

-- The two sets of a conversation after one more receipt for it.
pub read-add_to_room :
    (j : String) (kind : Kind) (i : String) (room : Room)
    → member j (ids_of read (add_to_room kind i room))
      ≡ (member j (ids_of read room) || (text_eqb j i && is_read kind))
unfolding add_to_room
read-add_to_room j read i room =
    ground (arith, ids-add_to_set read j i (forget_delivered i room), read-forget i room)
read-add_to_room j delivered i room = elim (Bool-cases (member i (ids_of read room))) [
  | inl e ↦ rw e (ground arith)
  | inr e ↦ rw (e, read-add_delivered i room) (ground arith)
]

pub delivered-add_to_room :
    (j : String) (kind : Kind) (i : String) (room : Room)
    → (member j (ids_of delivered room) && member j (ids_of read room)) ≡ false
    → member j (ids_of delivered (add_to_room kind i room)) ≡ (
        (member j (ids_of delivered room) || (text_eqb j i && not (is_read kind)))
        && not (member j (ids_of read room) || (text_eqb j i && is_read kind)))
unfolding add_to_room
delivered-add_to_room j read i room h =
    rw (delivered-add_read i (forget_delivered i room), delivered-forget j i room)
      (ground (arith, h))
delivered-add_to_room j delivered i room h = elim (Bool-cases (member i (ids_of read room))) [
  | inl e ↦ elim (Bool-cases (text_eqb j i)) [
    | inl same ↦
        let there : member j (ids_of read room) ≡ true =
          subst (λ k. member k (ids_of read room) ≡ true) (sym (text_eqb→eq j i same)) e in
        rw e (ground arith)
    | inr differ ↦ rw (e, differ) (ground arith)
  ]
  | inr e ↦ elim (Bool-cases (text_eqb j i)) [
    | inl same ↦
        let there : member j (ids_of read room) ≡ false =
          subst (λ k. member k (ids_of read room) ≡ false) (sym (text_eqb→eq j i same)) e in
        rw (e, ids-add_to_set delivered j i room, there, same) (ground arith)
    | inr differ ↦ rw (e, ids-add_to_set delivered j i room, differ) (ground arith)
  ]
]
