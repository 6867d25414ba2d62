-- ===== src/Web/Qr/Reading.antt =====
-- web/src/lib/qr.ts, `ulozDane`: what a reader of the standard finds in the stream.
use mekamb_chat.Common.{ℕ, zero, suc, ◌+◌, ◌*◌, ◌/◌, ◌%◌, ◌^◌, ◌==◌, if◌then◌else◌}
use mekamb_chat.Common.{◌≡◌, sym, ap, ◌∙◌, arith}
use mekamb_chat.Common.{Option, some, none, List, [], ◌∷◌, ◌++◌}
use native.Mathlib.Nat.{pow-suc, mod-add-div', div-div-eq-div-mul}
use mekamb_chat.Web.Qr.Versions.{length_bits}
use mekamb_chat.Web.Qr.Stream.{to_bits, bits_of}

-- Reading stops at the first failure.
infixl 5 ◌>>=◌
abbrev ◌>>=◌ {ℓ κ} : {A : Type ℓ} {B : Type κ} → Option A → (A → Option B) → Option B
none >>= f = none
some a >>= f = f a

-- A reader: a number of n bits, the highest first, on top of those read.
unfoldable pub read_number : ℕ → ℕ → List ℕ → Option (ℕ × List ℕ)
read_number zero acc bits = some (acc, bits)
read_number (suc n) acc [] = none
read_number (suc n) acc (b ∷ bits) = read_number n (acc * 2 + b) bits

unfoldable pub read_bytes : ℕ → List ℕ → Option (List ℕ)
read_bytes zero bits = some []
read_bytes (suc n) bits = do (b, rest) ← read_number 8 0 bits; bs ← read_bytes n rest; some (b ∷ bs)

-- A whole stream: the mode of bytes, their number, the bytes.
unfoldable pub read_data : ℕ → List ℕ → Option (List ℕ)
read_data v stream = do
  (mode, rest) ← read_number 4 0 (bits_of stream)
  (n, payload) ← read_number (length_bits v) 0 rest
  if mode == 4 then read_bytes n payload else none

double_mod : (v m : ℕ) → v % (m * 2) ≡ v / m % 2 * m + v % m
double_mod v m = omega (
  arith,
  sym (mod-add-div' v (m * 2)),
  ap (λ (t : ℕ). t * (m * 2)) (div-div-eq-div-mul v m 2),
  ap (λ (t : ℕ). t * m) (mod-add-div' (v / m) 2),
  mod-add-div' v m,
)

pub read_number-to_bits :
    (n acc v : ℕ) (rest : List ℕ)
    → read_number n acc (to_bits n v ++ rest) ≡ some (acc * 2 ^ n + v % 2 ^ n, rest)
unfolding read_number to_bits
read_number-to_bits zero acc v rest = ap (λ t. some (t, rest)) (omega arith)
read_number-to_bits (suc n) acc v rest =
    read_number-to_bits n (acc * 2 + v / 2 ^ n % 2) v rest
    ∙ ap (λ t. some (t, rest)) (rw pow-suc (grind (arith, double_mod v (2 ^ n))))
