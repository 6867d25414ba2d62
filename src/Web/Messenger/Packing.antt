-- ===== src/Web/Messenger/Packing.antt =====
-- The identifiers of messages and the joined key packages (web/src/lib/messenger.ts,
-- `idWiadomosci`, `sklejIdentyfikatory`, `rozetnijIdentyfikatory`, `sklejPakiety`).
use mekamb_chat.Common.{
  ℕ, zero, suc, ◌+◌, ◌-◌, ◌*◌, ◌/◌, ◌%◌, Bool, ◌&&◌, ◌||◌, Option, none, some, List, [], ◌∷◌, ◌++◌,
  if◌then◌else◌, leb, ◌==◌, length, drop, any,
}
use mekamb_chat.Server.Tokens.{to_hex}

-- `DLUGOSC_ID`
abbrev pub id_length : ℕ
id_length = 16

-- `idWiadomosci`: the characters of the text.
abbrev pub message_id_text : List ℕ → List ℕ
message_id_text bytes = to_hex bytes

-- The white space that `parseInt` skips.
abbrev pub spaces : List ℕ
spaces = 9 ∷ 10 ∷ 11 ∷ 12 ∷ 13 ∷ 32 ∷ 160 ∷ 5760 ∷ 8232 ∷ 8233 ∷ 8239 ∷ 8287 ∷ 12288 ∷ 65279 ∷ []

abbrev pub is_space : ℕ → Bool
is_space c = any (λ s. s == c) spaces || (leb 8192 c && leb c 8202)

-- The value of a hexadecimal digit.
unfoldable pub digit_value : ℕ → Option ℕ
digit_value c =
    if leb 48 c && leb c 57
    then some (c - 48)
    else if leb 97 c && leb c 102
    then some (c - 87)
    else if leb 65 c && leb c 70
    then some (c - 55)
    else none

abbrev pub digit_or : ℕ → Option ℕ → ℕ
digit_or d none = d
digit_or d (some v) = v

-- `parseInt(s, 16) || 0` of two characters as they are stored in a byte: a second character that is no
-- digit is left off, and white space and a sign are read as `parseInt` does.
abbrev pub pair_value : Option ℕ → ℕ → Option ℕ → ℕ
pair_value (some h) c none = h
pair_value (some h) c (some l) = h * 16 + l
pair_value none c low =
    if c == 45
    then (256 - digit_or 0 low) % 256
    else if c == 43 || is_space c
    then digit_or 0 low
    else 0

-- The byte at the place `2 * i` of the text, with `i` counted off by the caller.
unfoldable pub first_byte : List ℕ → ℕ
unfolding digit_value
first_byte [] = 0
first_byte (c ∷ []) = digit_or 0 (digit_value c)
first_byte (c ∷ d ∷ cs) = pair_value (digit_value c) c (digit_value d)

-- The inner loop of `sklejIdentyfikatory`, for the `n` bytes that are left.
unfoldable pub id_bytes : ℕ → List ℕ → List ℕ
unfolding first_byte
id_bytes zero text = []
id_bytes (suc n) text = first_byte text ∷ id_bytes n (drop 2 text)

-- `sklejIdentyfikatory`
unfoldable pub join_ids : List (List ℕ) → List ℕ
unfolding id_bytes
join_ids [] = []
join_ids (id ∷ ids) = id_bytes id_length id ++ join_ids ids

-- The next `n` bytes with what follows; `none` where there are fewer.
unfoldable pub split_first : ℕ → List ℕ → Option (List ℕ × List ℕ)
split_first zero bytes = some ([], bytes)
split_first (suc n) [] = none
split_first (suc n) (b ∷ bs) = elim (split_first n bs) [
  | none ↦ none
  | some (taken, rest) ↦ some (b ∷ taken, rest)
]

-- `rozetnijIdentyfikatory`, with the length of the bytes as fuel.
unfoldable pub split_ids_from : ℕ → List ℕ → List (List ℕ)
unfolding split_first to_hex
split_ids_from zero bytes = []
split_ids_from (suc fuel) bytes = elim (split_first id_length bytes) [
  | none ↦ []
  | some (taken, rest) ↦ to_hex taken ∷ split_ids_from fuel rest
]

unfoldable pub split_ids : List ℕ → List (List ℕ)
unfolding split_ids_from
split_ids bytes = split_ids_from (length bytes) bytes

-- `setUint32`: four bytes, the highest first.
unfoldable pub uint32 : ℕ → List ℕ
uint32 n = (n / 16777216 % 256) ∷ (n / 65536 % 256) ∷ (n / 256 % 256) ∷ (n % 256) ∷ []

-- `sklejPakiety`
unfoldable pub join_packages : List (List ℕ) → List ℕ
unfolding uint32
join_packages [] = []
join_packages (x ∷ xs) = uint32 (length x) ++ (x ++ join_packages xs)
