-- ===== src/Web/Receipts/Collected.antt =====
-- What the collector holds after any receipts, and the state that they give a message
-- (web/src/lib/potwierdzenia.ts).
use mekamb_chat.Common.{
  String, Bool, true, false, not, ◌&&◌, ◌||◌, ◌≡◌, refl, Bool-cases, inl, inr, List, [], ◌∷◌, ◌++◌,
  if◌then◌else◌, text_discrete, text_eqb, text_eqb→eq, text_eqb_refl, ◌≢◌, ◌∙◌, ap, any, all, arith,
  max,
}
use mekamb_chat.Common.Keyed.{get, get-set_self, get-set_ne}
use mekamb_chat.Web.Receipts.{
  Kind, delivered, read, Room, Pending, Packet, member, ids_of, add_to_room, add, room_of, is_nil,
  is_empty, packets_of, packets, take_all, SendState, rank, higher_state,
}
use mekamb_chat.Web.Receipts.Sets.{is_read, read-add_to_room, delivered-add_to_room}

pub record Receipt : Type 0 where
  pub conversation : String
  pub kind : Kind
  pub id : String

-- The collector after the receipts of a list, first to last.
abbrev pub gather : Pending → List Receipt → Pending
gather p [] = p
gather p (r ∷ rs) = gather (add r.conversation r.kind r.id p) rs

abbrev pub awaits : Kind → String → String → Pending → Bool
awaits kind conversation id p = member id (ids_of kind (room_of conversation p))

abbrev pub is_about : String → String → Receipt → Bool
is_about conversation id r = text_eqb conversation r.conversation && text_eqb id r.id

abbrev pub tells_read : String → String → Receipt → Bool
tells_read conversation id r = is_about conversation id r && is_read r.kind

abbrev pub tells_delivered : String → String → Receipt → Bool
tells_delivered conversation id r = is_about conversation id r && not (is_read r.kind)

room_of-add :
    (c : String) (r : Receipt) (p : Pending)
    → room_of c (add r.conversation r.kind r.id p)
      ≡ (if text_eqb c r.conversation then add_to_room r.kind r.id (room_of c p) else room_of c p)
unfolding add
room_of-add c r p = elim (Bool-cases (text_eqb c r.conversation)) [
  | inl e ↦
      let same : c ≡ r.conversation = text_eqb→eq c r.conversation e in
      rw (e, same)
        (rw
          (get-set_self text_discrete r.conversation
            (add_to_room r.kind r.id (room_of r.conversation p)) p)
          refl)
  | inr e ↦
      let differ : r.conversation ≢ c = λ s. cc (e, text_eqb_refl c, s) in
      rw e (
        rw
          (get-set_ne text_discrete r.conversation c
            (add_to_room r.kind r.id (room_of r.conversation p)) p differ)
          refl)
]

read_step :
    (c i : String) (r : Receipt) (p : Pending)
    → awaits read c i (add r.conversation r.kind r.id p) ≡ (awaits read c i p || tells_read c i r)
read_step c i r p = elim (Bool-cases (text_eqb c r.conversation)) [
  | inl e ↦ rw (room_of-add c r p, e) (read-add_to_room i r.kind r.id (room_of c p))
  | inr e ↦ rw (room_of-add c r p, e) (ground arith)
]

delivered_step :
    (c i : String) (r : Receipt) (p : Pending)
    → (awaits delivered c i p && awaits read c i p) ≡ false
    → awaits delivered c i (add r.conversation r.kind r.id p) ≡ (
        (awaits delivered c i p || tells_delivered c i r)
        && not (awaits read c i p || tells_read c i r))
delivered_step c i r p h = elim (Bool-cases (text_eqb c r.conversation)) [
  | inl e ↦ rw (room_of-add c r p, e) (delivered-add_to_room i r.kind r.id (room_of c p) h)
  | inr e ↦ rw (room_of-add c r p, e) (ground (arith, h))
]

both_apart : (a b c d : Bool) → ((((a || c) && not (b || d)) && (b || d)) ≡ false)
both_apart a b c d = ground arith

or_assoc : (a b c : Bool) → ((a || b) || c) ≡ (a || (b || c))
or_assoc a b c = ground arith

both_later :
    (a b c d e f : Bool)
    → (((((a || c) && not (b || d)) || e) && not ((b || d) || f))
        ≡ ((a || (c || e)) && not (b || (d || f))))
both_later a b c d e f = ground arith

gathered :
    (c i : String) (rs : List Receipt) (p : Pending)
    → (awaits delivered c i p && awaits read c i p) ≡ false
    → (awaits read c i (gather p rs) ≡ (awaits read c i p || any (tells_read c i) rs))
      × (awaits delivered c i (gather p rs) ≡ (
          (awaits delivered c i p || any (tells_delivered c i) rs)
          && not (awaits read c i p || any (tells_read c i) rs)))
gathered c i [] p h = (ground arith, ground (arith, h))
gathered c i (r ∷ rs) p h =
    let one = read_step c i r p in
    let two = delivered_step c i r p h in
    let apart : (awaits delivered c i (add r.conversation r.kind r.id p)
          && awaits read c i (add r.conversation r.kind r.id p))
        ≡ false =
      rw (one, two)
        (both_apart (awaits delivered c i p) (awaits read c i p) (tells_delivered c i r)
          (tells_read c i r)) in
    let (first, second) = gathered c i rs (add r.conversation r.kind r.id p) apart in
    (
      first ∙ rw one (or_assoc (awaits read c i p) (tells_read c i r) (any (tells_read c i) rs)),
      second
          ∙ rw (one, two)
              (both_later (awaits delivered c i p) (awaits read c i p) (tells_delivered c i r)
                (tells_read c i r) (any (tells_delivered c i) rs) (any (tells_read c i) rs)),
    )

-- What is waiting to be sent after any receipts since the collector was empty: a message is there as
-- read exactly if some receipt said so, and as delivered exactly if some receipt said so and none
-- said that it was read, in whatever order they came.
pub gather_lem :
    (c i : String) (rs : List Receipt)
    → (awaits read c i (gather [] rs) ≡ any (tells_read c i) rs)
      × (awaits delivered c i (gather [] rs)
          ≡ (any (tells_delivered c i) rs && not (any (tells_read c i) rs)))
unfolding get
gather_lem c i rs = gathered c i rs [] refl

abbrev pub has_none : List Packet → Bool
has_none [] = true
has_none (x ∷ xs) = false

has_none-packets_of :
    (c : String) (room : Room) (rest : List Packet)
    → has_none (packets_of c room ++ rest) ≡ (all (λ one. is_nil one.1) room && has_none rest)
unfolding packets_of
has_none-packets_of c [] rest = refl
has_none-packets_of c ((kind, ids) ∷ room) rest = ground (arith, has_none-packets_of c room rest)

-- Taking the receipts leaves the collector empty, gives packets exactly if it was not empty, and
-- no packet is without messages.
pub take_all_lem :
    (p : Pending) → (is_empty (take_all p).0 ≡ true) × (has_none (take_all p).1 ≡ is_empty p)
unfolding take_all is_empty packets
take_all_lem [] = (refl, refl)
take_all_lem ((c, room) ∷ p) = (
  refl,
  has_none-packets_of c room (packets p)
      ∙ ap (λ t. all (λ one. is_nil one.1) room && t) (take_all_lem p).1,
)

-- The state of a sent message only rises, and receipts may come in any order and more than once:
-- the state with one more receipt has the greater rank of the two, and two receipts give the same
-- state in either order.
pub higher_state_lem :
    (s a b : SendState)
    → (rank (higher_state s a) ≡ max (rank s) (rank a))
      × (higher_state (higher_state s a) b ≡ higher_state (higher_state s b) a)
      × (higher_state (higher_state s a) a ≡ higher_state s a)
unfolding higher_state
higher_state_lem s a b = (ground arith, ground arith, ground arith)
