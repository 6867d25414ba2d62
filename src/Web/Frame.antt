-- ===== src/Web/Frame.antt =====
-- Mailbox frames on the client's side: taking one apart (web/src/Czat.tsx) and writing the
-- acknowledgement (web/src/lib/polaczenie.ts).
use mekamb_chat.Common.{
  ℕ, zero, suc, ◌+◌, ◌*◌, ◌/◌, ◌%◌, Option, none, some, List, [], ◌∷◌, ◌==◌, if◌then◌else◌,
}

-- The number that `n` bytes stand for, the highest first, and the bytes after them; none where
-- there are too few (`getBigUint64` throws).
unfoldable pub from_big_endian : ℕ → ℕ → List ℕ → Option (ℕ × List ℕ)
from_big_endian zero acc bytes = some (acc, bytes)
from_big_endian (suc n) acc [] = none
from_big_endian (suc n) acc (b ∷ bytes) = from_big_endian n (acc * 256 + b) bytes

-- The id and the envelope of a frame.
unfoldable pub split_frame : List ℕ → Option (ℕ × List ℕ)
unfolding from_big_endian
split_frame frame = from_big_endian 8 0 frame

-- The decimal digits of a number in ASCII, in front of `rest`; `fuel` above the number is enough.
unfoldable pub decimal_onto : ℕ → ℕ → List ℕ → List ℕ
decimal_onto zero n rest = rest
decimal_onto (suc fuel) n rest =
    let more = decimal_onto fuel (n / 10) ((48 + n % 10) ∷ rest) in
    if n / 10 == 0 then (48 + n % 10) ∷ rest else more

unfoldable pub decimal : ℕ → List ℕ
unfolding decimal_onto
decimal n = decimal_onto (suc n) n []

-- `ack:${id}`
unfoldable pub ack_text : ℕ → List ℕ
unfolding decimal
ack_text id = 97 ∷ 99 ∷ 107 ∷ 58 ∷ decimal id
