-- ===== src/Web/Qr/Grid.antt =====
-- web/src/lib/qr.ts: the flat matrix of modules, `pusta`, `pobierz`, `ustaw`.
use mekamb_chat.Common.{ℕ, zero, suc, ◌+◌, ◌*◌, Bool, true, false}
use mekamb_chat.Common.{get_or_else, List, [], ◌∷◌}
use mekamb_chat.Common.Arrays.{at?, put_at, replicate}

-- NIEUSTALONY, and JASNY (false) or CIEMNY (true).
pub data Module : Type 0 where
  unset : Module
  filled : Bool → Module

-- `Macierz`
pub record Grid : Type 0 where
  pub side : ℕ
  pub cells : List Module

-- `pusta`
unfoldable pub blank : ℕ → Grid
blank n = record { side = n; cells = replicate (n * n) unset }

abbrev pub place : Grid → ℕ → ℕ → ℕ
place m y x = y * m.side + x

-- `pobierz`
unfoldable pub module_at : Grid → ℕ → ℕ → Module
module_at m y x = get_or_else (at? (place m y x) m.cells) unset

-- `ustaw`
unfoldable pub set_module : ℕ → ℕ → Bool → Grid → Grid
set_module y x is_dark m = record {
  side = m.side;
  cells = put_at (place m y x) (filled is_dark) m.cells;
}

abbrev pub is_unset : Module → Bool
is_unset unset = true
is_unset (filled b) = false

abbrev pub is_dark : Module → Bool
is_dark unset = false
is_dark (filled b) = b

-- A loop over the elements of a list, and the numbers that a loop counts.
abbrev pub each {ℓ} : {A : Type ℓ} → List A → (A → Grid → Grid) → Grid → Grid
each [] f m = m
each (a ∷ l) f m = each l f (f a m)

abbrev pub from_on : ℕ → ℕ → List ℕ
from_on zero i = []
from_on (suc n) i = i ∷ from_on n (suc i)

abbrev pub upto : ℕ → List ℕ
upto n = from_on n 0
