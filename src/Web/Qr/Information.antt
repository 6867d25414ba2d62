-- ===== src/Web/Qr/Information.antt =====
-- web/src/lib/qr.ts: `infoWersji` and `infoFormatu`, and `maskuj`.
use mekamb_chat.Common.{ℕ, zero, suc, ◌+◌, ◌-◌, ◌*◌, ◌/◌, ◌%◌, ◌^◌, ◌==◌, Bool, if◌then◌else◌}
use Prim.Native.Nat.{bit_xor, bit_or}

-- `a << n` on 32 bits, read as an unsigned number; a shift counts modulo 32.
abbrev pub shift_left : ℕ → ℕ → ℕ
shift_left a n = a * 2 ^ (n % 32) % 2 ^ 32

-- `(a >> n) & 1`
abbrev pub bit_at : ℕ → ℕ → Bool
bit_at a n = a / 2 ^ n % 2 == 1

-- The loop of `infoWersji`, rounds i to 11. From round 6 on the shift 5 - i is negative, which
-- JavaScript takes modulo 32, as 37 - i is.
unfoldable pub version_remainder : ℕ → ℕ → ℕ → ℕ
version_remainder zero i rest = rest
version_remainder (suc n) i rest =
    version_remainder n (suc i)
      (if bit_at rest (17 - i) then bit_xor rest (shift_left 0x1f25 (37 - i)) else rest)

-- `infoWersji`
unfoldable pub version_information : ℕ → ℕ
version_information v = bit_or (shift_left v 12) (version_remainder 12 0 (shift_left v 12) % 4096)

-- The loop of `infoFormatu`.
unfoldable pub format_remainder : ℕ → ℕ → ℕ → ℕ
format_remainder zero i rest = rest
format_remainder (suc n) i rest =
    format_remainder n (suc i)
      (if bit_at rest (14 - i) then bit_xor rest (shift_left 0x537 (4 - i)) else rest)

-- `infoFormatu`; the level M is 0, so that the data are the mask.
unfoldable pub format_information : ℕ → ℕ
format_information mask =
    bit_xor (bit_or (shift_left mask 10) (format_remainder 5 0 (shift_left mask 10) % 1024)) 0x5412

-- `maskuj`
unfoldable pub masked : ℕ → ℕ → ℕ → Bool
masked mask y x =
    if mask == 0
    then (y + x) % 2 == 0
    else if mask == 1
    then y % 2 == 0
    else if mask == 2
    then x % 3 == 0
    else if mask == 3
    then (y + x) % 3 == 0
    else if mask == 4
    then (y / 2 + x / 3) % 2 == 0
    else if mask == 5
    then (y * x) % 2 + (y * x) % 3 == 0
    else if mask == 6
    then ((y * x) % 2 + (y * x) % 3) % 2 == 0
    else ((y + x) % 2 + (y * x) % 3) % 2 == 0
