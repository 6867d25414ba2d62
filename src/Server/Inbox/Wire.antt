-- ===== src/Server/Inbox/Wire.antt =====
-- The bytes on a mailbox socket (server/src/inbox.ts): the id before an envelope, and the messages
-- that a client sends back. Text is the list of its code units.
use mekamb_chat.Common.{
  ℕ, zero, suc, ◌+◌, ◌-◌, ◌*◌, ◌/◌, ◌%◌, ◌^◌, Bool, true, false, ◌&&◌, Option, none, some, List, [],
  ◌∷◌, ◌++◌, leb, ◌==◌, if◌then◌else◌,
}

-- `n` bytes of a number, the highest first.
unfoldable pub big_endian : ℕ → ℕ → List ℕ
big_endian zero x = []
big_endian (suc n) x = x / 256 ^ n % 256 ∷ big_endian n x

-- `withId`: 8 bytes of the id, then the envelope. `setBigUint64` keeps the id modulo 2 ^ 64.
unfoldable pub with_id : ℕ → List ℕ → List ℕ
with_id id envelope = big_endian 8 id ++ envelope

pub data Message : Type 0 where
  binary : Message
  text : List ℕ → Message

pub data Command : Type 0 where
  ping : Command
  ack : ℕ → Command
  other : Command

-- `\d+$`, read as a number: none unless there is a digit and nothing but digits.
abbrev pub is_digit : ℕ → Bool
is_digit c = leb 48 c && leb c 57

abbrev pub digits_from : ℕ → List ℕ → Option ℕ
digits_from acc [] = some acc
digits_from acc (c ∷ cs) =
    let rest = digits_from (acc * 10 + (c - 48)) cs in if is_digit c then rest else none

abbrev pub digits : List ℕ → Option ℕ
digits [] = none
digits (c ∷ cs) = digits_from 0 (c ∷ cs)

abbrev pub ping_text : List ℕ
ping_text = 112 ∷ 105 ∷ 110 ∷ 103 ∷ []

abbrev pub pong : List ℕ
pong = 112 ∷ 111 ∷ 110 ∷ 103 ∷ []

-- What follows `prefix`, if the text begins with it.
abbrev pub strip_prefix : List ℕ → List ℕ → Option (List ℕ)
strip_prefix [] cs = some cs
strip_prefix (p ∷ ps) [] = none
strip_prefix (p ∷ ps) (c ∷ cs) = let rest = strip_prefix ps cs in if c == p then rest else none

abbrev pub ack_prefix : List ℕ
ack_prefix = 97 ∷ 99 ∷ 107 ∷ 58 ∷ []

abbrev pub to_command : Option ℕ → Command
to_command none = other
to_command (some n) = ack n

abbrev pub after_prefix : Option (List ℕ) → Option ℕ
after_prefix none = none
after_prefix (some ds) = digits ds

abbrev pub equal_text : List ℕ → List ℕ → Bool
equal_text [] [] = true
equal_text [] (b ∷ bs) = false
equal_text (a ∷ as') [] = false
equal_text (a ∷ as') (b ∷ bs) = a == b && equal_text as' bs

unfoldable pub parse_command : List ℕ → Command
parse_command cs =
    if equal_text cs ping_text then ping else to_command (after_prefix (strip_prefix ack_prefix cs))
