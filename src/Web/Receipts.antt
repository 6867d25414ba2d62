-- ===== src/Web/Receipts.antt =====
-- Receipts of messages: the collector `Zbieracz` and the state of a sent message
-- (web/src/lib/potwierdzenia.ts). A JavaScript set is a list in the order of insertion.
use mekamb_chat.Common.{
  ℕ, String, Bool, true, false, not, ◌&&◌, ◌||◌, ◌≡◌, refl, Option, none, some, List, [], ◌∷◌, ◌++◌,
  if◌then◌else◌, ltb, get_or_else, text_eqb, text_discrete, any, all, filter,
}
use mekamb_chat.Common.Keyed.{get, set}
pub mod Sets
pub mod Collected

-- `RodzajPotwierdzenia`
pub data Kind : Type 0 where
  delivered read : Kind

unfoldable pub kind_discrete : Discrete Kind
kind_discrete delivered delivered = yes refl
kind_discrete read read = yes refl
kind_discrete delivered read = no (λ e. cc)
kind_discrete read delivered = no (λ e. cc)

-- `StanWiadomosci`
pub data SendState : Type 0 where
  in_flight failed sent arrived seen : SendState

-- `KOLEJNOSC`
abbrev pub rank : SendState → ℕ
rank in_flight = 0
rank failed = 0
rank sent = 1
rank arrived = 2
rank seen = 3

-- `wyzszyStan`
unfoldable pub higher_state : SendState → SendState → SendState
higher_state current new = if ltb (rank current) (rank new) then new else current

-- `stanZPotwierdzenia`
abbrev pub state_of_receipt : Kind → SendState
state_of_receipt read = seen
state_of_receipt delivered = arrived

abbrev pub Room : Type 0
Room = List (Kind × List String)

abbrev pub Pending : Type 0
Pending = List (String × Room)

-- `Paczka`
pub record Packet : Type 0 where
  pub conversation : String
  pub kind : Kind
  pub ids : List String

abbrev pub member : String → List String → Bool
member id ids = any (text_eqb id) ids

-- `zbior.add(id)`
unfoldable pub set_add : String → List String → List String
set_add id ids = if member id ids then ids else ids ++ id ∷ []

-- `zbior.delete(id)`
unfoldable pub set_delete : String → List String → List String
set_delete id ids = filter (λ j. not (text_eqb id j)) ids

abbrev pub ids_of : Kind → Room → List String
ids_of kind room = get_or_else (get kind_discrete kind room) []

-- `rozmowa.get("delivered")?.delete(id)`
unfoldable pub forget_delivered : String → Room → Room
unfolding set_delete
forget_delivered id room = elim (get kind_discrete delivered room) [
  | none ↦ room
  | some ids ↦ set kind_discrete delivered (set_delete id ids) room
]

unfoldable pub add_to_set : Kind → String → Room → Room
unfolding set_add
add_to_set kind id room = set kind_discrete kind (set_add id (ids_of kind room)) room

-- The body of `dodaj`, for the conversation's map.
unfoldable pub add_to_room : Kind → String → Room → Room
unfolding forget_delivered add_to_set
add_to_room read id room = add_to_set read id (forget_delivered id room)
add_to_room delivered id room =
    if member id (ids_of read room) then room else add_to_set delivered id room

abbrev pub room_of : String → Pending → Room
room_of conversation p = get_or_else (get text_discrete conversation p) []

-- `dodaj`
unfoldable pub add : String → Kind → String → Pending → Pending
unfolding add_to_room
add conversation kind id p =
    set text_discrete conversation (add_to_room kind id (room_of conversation p)) p

abbrev pub is_nil : List String → Bool
is_nil [] = true
is_nil (x ∷ xs) = false

-- `pusty`
unfoldable pub is_empty : Pending → Bool
is_empty p = all (λ entry. all (λ one. is_nil one.1) entry.1) p

unfoldable pub packets_of : String → Room → List Packet
packets_of conversation [] = []
packets_of conversation ((kind, ids) ∷ room) =
    let rest = packets_of conversation room in
    if is_nil ids
    then rest
    else record { conversation = conversation; kind = kind; ids = ids } ∷ rest

unfoldable pub packets : Pending → List Packet
unfolding packets_of
packets [] = []
packets ((conversation, room) ∷ p) = packets_of conversation room ++ packets p

-- `zabierz`: what is left, and what is to be sent.
unfoldable pub take_all : Pending → Pending × List Packet
unfolding packets
take_all p = ([], packets p)
