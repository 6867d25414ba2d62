-- ===== src/Web/Messenger/RoundTrips.antt =====
-- What the joined identifiers and the joined key packages can be taken apart to
-- (web/src/lib/messenger.ts).
use mekamb_chat.Common.{
  ℕ, zero, suc, ◌+◌, ◌*◌, ◌/◌, ◌%◌, ◌≤◌, ◌<◌, ◌≡◌, refl, ap, subst, Option, none, some, List, [],
  ◌∷◌, ◌++◌, map, length, arith, All, length-append,
}
use mekamb_chat.Server.Tokens.{to_hex, hex_digit}
use mekamb_chat.Web.Messenger.Packing.{
  digit_value, first_byte, id_bytes, join_ids, split_first, split_ids_from, split_ids,
  join_packages,
}

digit_value-hex_digit : (n : ℕ) → n < 16 → digit_value (hex_digit n) ≡ some n
unfolding digit_value
digit_value-hex_digit n h = ground arith

IsByte : ℕ → Type 0
IsByte b = b < 256

first_byte-to_hex :
    (b : ℕ) (rest : List ℕ)
    → b < 256
    → first_byte (hex_digit (b / 16) ∷ hex_digit (b % 16) ∷ rest) ≡ b
unfolding first_byte
first_byte-to_hex b rest h =
    rw (digit_value-hex_digit (b / 16) (omega arith), digit_value-hex_digit (b % 16) (omega arith))
      (omega arith)

id_bytes-to_hex :
    (bytes : List ℕ) → All (λ b. b < 256) bytes → id_bytes (length bytes) (to_hex bytes) ≡ bytes
unfolding id_bytes to_hex
id_bytes-to_hex [] h = refl
id_bytes-to_hex (b ∷ bs) h = rw (first_byte-to_hex b (to_hex bs) h.0, id_bytes-to_hex bs h.1)

split_first-append : (xs rest : List ℕ) → split_first (length xs) (xs ++ rest) ≡ some (xs, rest)
unfolding split_first
split_first-append [] rest = refl
split_first-append (x ∷ xs) rest = rw (split_first-append xs rest, split_first)

-- An identifier of the core: sixteen bytes.
abbrev pub IsId : List ℕ → Type 0
IsId id = (length id ≡ 16) × All (λ b. b < 256) id

join_ids-cons :
    (id : List ℕ) (ids : List (List ℕ)) → IsId id → join_ids (to_hex id ∷ ids) ≡ id ++ join_ids ids
unfolding join_ids
join_ids-cons id ids (len, bytes) =
    ap (λ l. l ++ join_ids ids)
      (subst (λ n. id_bytes n (to_hex id) ≡ id) len (id_bytes-to_hex id bytes))

split_ids_from-join_ids :
    (fuel : ℕ) (ids : List (List ℕ))
    → length ids ≤ fuel
    → All IsId ids
    → split_ids_from fuel (join_ids (map to_hex ids)) ≡ map to_hex ids
unfolding split_ids_from
split_ids_from-join_ids zero [] h all = refl
split_ids_from-join_ids zero (id ∷ ids) h all = absurd (omega arith)
split_ids_from-join_ids (suc fuel) [] h all = unfold join_ids split_first in refl
split_ids_from-join_ids (suc fuel) (id ∷ ids) h all =
    let rest = join_ids (map to_hex ids) in
    let first : split_first 16 (id ++ rest) ≡ some (id, rest) =
      rw (← all.0.0) (split_first-append id rest) in
    rw (join_ids-cons id (map to_hex ids) all.0, first, split_ids_from)
      (ap (λ l. to_hex id ∷ l) (split_ids_from-join_ids fuel ids (omega arith) all.1))

length-join_ids :
    (ids : List (List ℕ)) → All IsId ids → length ids ≤ length (join_ids (map to_hex ids))
length-join_ids [] all = omega arith
length-join_ids (id ∷ ids) all = rw (join_ids-cons id (map to_hex ids) all.0) (
    omega (arith, length-append id (join_ids (map to_hex ids)), length-join_ids ids all.1, all.0.0))

-- The identifiers of a receipt come back from the bytes that are sent: those that the core gives, of
-- sixteen bytes each, in the text form that the client keeps.
pub split_ids-join_ids :
    (ids : List (List ℕ)) → All IsId ids → split_ids (join_ids (map to_hex ids)) ≡ map to_hex ids
unfolding split_ids
split_ids-join_ids ids all =
    split_ids_from-join_ids (length (join_ids (map to_hex ids))) ids (length-join_ids ids all) all

-- A reader of the joined packages: four bytes of length, the highest first, and so many bytes.
pub read_packages : ℕ → List ℕ → Option (List (List ℕ))
read_packages fuel [] = some []
read_packages (suc fuel) (a ∷ b ∷ c ∷ d ∷ bytes) =
    elim (split_first (((a * 256 + b) * 256 + c) * 256 + d) bytes) [
      | none ↦ none
      | some (taken, rest) ↦ elim (read_packages fuel rest) [
        | none ↦ none
        | some more ↦ some (taken ∷ more)
      ]
    ]
read_packages _ _ = none

uint32_value :
    (n : ℕ)
    → n < 4294967296
    → ((n / 16777216 % 256 * 256 + n / 65536 % 256) * 256 + n / 256 % 256) * 256 + n % 256 ≡ n
uint32_value n h = omega arith

-- The core can take the joined key packages apart again, if each is shorter than 4 GiB; as many
-- rounds are enough as there are packages.
pub read_packages-join_packages :
    (fuel : ℕ) (packages : List (List ℕ))
    → length packages ≤ fuel
    → All (λ k. length k < 4294967296) packages
    → read_packages fuel (join_packages packages) ≡ some packages
unfolding read_packages join_packages
read_packages-join_packages zero [] h all = refl
read_packages-join_packages (suc fuel) [] h all = refl
read_packages-join_packages zero (k ∷ ks) h all = absurd (omega arith)
read_packages-join_packages (suc fuel) (k ∷ ks) h all = rw (
  uint32_value (length k) all.0,
  split_first-append k (join_packages ks),
  read_packages,
  read_packages-join_packages fuel ks (omega arith) all.1,
)
