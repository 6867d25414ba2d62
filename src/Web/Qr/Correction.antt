-- ===== src/Web/Qr/Correction.antt =====
-- web/src/lib/qr.ts: `generator` and `korekcja`, the correction bytes of one block.
use mekamb_chat.Common.{ℕ, zero, suc, List, [], ◌∷◌, ◌++◌, length, drop, if◌then◌else◌, ◌==◌}
use mekamb_chat.Common.Arrays.{zeros}
use mekamb_chat.Web.Qr.Field.{exp, times}
use Prim.Native.Nat.{bit_xor}

-- One round of the outer loop of `generator`, from j on: `nowy[j]` holds what round j - 1 put there.
unfoldable pub widen : ℕ → ℕ → List ℕ → List ℕ
widen e carry [] = carry ∷ []
widen e carry (w ∷ ws) = bit_xor carry w ∷ widen e (bit_xor 0 (times w e)) ws

-- `generator(stopien)`: the product of the factors x + EXP[i] for i below the degree.
unfoldable pub generator : ℕ → List ℕ
generator zero = 1 ∷ []
generator (suc n) = widen (exp n) 0 (generator n)

-- The inner loop of `korekcja`: `reszta[i + j] ^= mnoz(gen[j], czynnik)`, on the part of `reszta`
-- from i on; a write past its end does nothing.
unfoldable pub subtract : ℕ → List ℕ → List ℕ → List ℕ
subtract c [] rs = rs
subtract c (g ∷ gs) [] = []
subtract c (g ∷ gs) (r ∷ rs) = bit_xor r (times g c) ∷ subtract c gs rs

-- One round of its outer loop; a leading zero is left as it is.
unfoldable pub cleared : List ℕ → ℕ → List ℕ → List ℕ
cleared gen c rs = if c == 0 then c ∷ rs else subtract c gen (c ∷ rs)

abbrev first_or_zero : List ℕ → ℕ
first_or_zero [] = 0
first_or_zero (x ∷ l) = x

-- The outer loop with n rounds to go, on the part of `reszta` from i on: round i is the last that
-- touches its first element.
unfoldable pub reduce : List ℕ → ℕ → List ℕ → List ℕ
reduce gen zero rs = rs
reduce gen (suc n) [] = []
reduce gen (suc n) (c ∷ rs) =
    let round = cleared gen c rs in first_or_zero round ∷ reduce gen n (drop 1 round)

-- `korekcja(dane, ileEc)`
unfoldable pub correction : List ℕ → ℕ → List ℕ
correction block ec = drop (length block) (reduce (generator ec) (length block) (block ++ zeros ec))
