-- ===== src/Web/Qr/Stream.antt =====
-- web/src/lib/qr.ts, `ulozDane`: the stream of data bytes.
use mekamb_chat.Common.{
  ℕ, zero, suc, ◌+◌, ◌-◌, ◌*◌, ◌/◌, ◌%◌, ◌^◌, ◌==◌, if◌then◌else◌, min, length,
}
use mekamb_chat.Common.{Option, some, none, List, [], ◌∷◌, ◌++◌}
use mekamb_chat.Web.Qr.Versions.{capacity, length_bits}

-- `dopisz`: the lowest bits of a value, the highest of them first.
unfoldable pub to_bits : ℕ → ℕ → List ℕ
to_bits zero value = []
to_bits (suc i) value = value / 2 ^ i % 2 ∷ to_bits i value

unfoldable pub bits_of : List ℕ → List ℕ
bits_of [] = []
bits_of (b ∷ bs) = to_bits 8 b ++ bits_of bs

-- The mode, the length and the bytes.
unfoldable pub content : List ℕ → ℕ → List ℕ
content bytes v = to_bits 4 4 ++ (to_bits (length_bits v) (length bytes) ++ bits_of bytes)

-- The terminator: at most four zeros, while there is room.
unfoldable pub terminated : ℕ → List ℕ → List ℕ
terminated room bits = bits ++ to_bits (min 4 (room * 8 - length bits)) 0

-- `while (bity.length % 8 !== 0) bity.push(0);`, with a number of rounds.
unfoldable pub aligned : ℕ → List ℕ → List ℕ
aligned zero bits = bits
aligned (suc k) bits =
    let more = aligned k (bits ++ (0 ∷ [])) in if length bits % 8 == 0 then bits else more

-- The inner loop over eight bits, `bajt = (bajt << 1) | bit`.
unfoldable pub to_number : ℕ → List ℕ → ℕ
to_number acc [] = acc
to_number acc (b ∷ bs) = to_number (acc * 2 + b) bs

-- The bytes of a list of bits, eight by eight.
unfoldable pub to_bytes : List ℕ → List ℕ
to_bytes (a ∷ b ∷ c ∷ d ∷ e ∷ f ∷ g ∷ h ∷ rest) =
    to_number 0 (a ∷ b ∷ c ∷ d ∷ e ∷ f ∷ g ∷ h ∷ []) ∷ to_bytes rest
to_bytes _ = []

-- The filling from position i after the full bytes.
unfoldable pub filling : ℕ → ℕ → List ℕ
filling zero i = []
filling (suc k) i = (if i % 2 == 0 then 0xec else 0x11) ∷ filling k (suc i)

-- A typed array of `room` bytes takes the first of them; a write past its end does nothing.
unfoldable pub first_bytes : ℕ → List ℕ → List ℕ
first_bytes zero l = []
first_bytes (suc room) [] = []
first_bytes (suc room) (b ∷ l) = b ∷ first_bytes room l

unfoldable pub laid : ℕ → List ℕ → List ℕ
laid room bits = first_bytes room (to_bytes bits) ++ filling (room - length bits / 8) 0

-- `ulozDane`; none stands for the exception of `parametry`.
unfoldable pub lay_data : List ℕ → ℕ → Option (List ℕ)
lay_data bytes v = elim (capacity v) [
  | none ↦ none
  | some room ↦ some (laid room (aligned 8 (terminated room (content bytes v))))
]
