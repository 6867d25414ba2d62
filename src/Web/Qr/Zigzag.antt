-- ===== src/Web/Qr/Zigzag.antt =====
-- web/src/lib/qr.ts: `wpiszDane` and `qrMatrixZMaska`.
use mekamb_chat.Common.{ℕ, zero, suc, ◌-◌, ◌*◌, ◌/◌, ◌%◌, ◌==◌, ltb, length, map, if◌then◌else◌}
use mekamb_chat.Common.{
  Bool, true, false, not, ◌&&◌, get_or_else, Option, none, some, List, [], ◌∷◌, ◌++◌,
}
use mekamb_chat.Common.Arrays.{at?}
use mekamb_chat.Web.Qr.Versions.{choose_version}
use mekamb_chat.Web.Qr.Stream.{lay_data}
use mekamb_chat.Web.Qr.Interleave.{interleave}
use mekamb_chat.Web.Qr.Grid.{Grid, module_at, set_module, is_unset, is_dark, upto}
use mekamb_chat.Web.Qr.Information.{bit_at, masked}
use mekamb_chat.Web.Qr.Patterns.{frame}

-- The right columns of the pairs, from `prawa` on, with a number of rounds; column 6 is passed over.
unfoldable pub right_columns : ℕ → ℕ → List ℕ
right_columns zero right = []
right_columns (suc n) right =
    let column = if right == 6 then 5 else right in
    let rest = right_columns n (column - 2) in if right == 0 then [] else column ∷ rest

-- The modules of a pair of columns in the order of the inner loops.
unfoldable pub pair_places : ℕ → Bool → ℕ → List ℕ → List (ℕ × ℕ)
pair_places side up right [] = []
pair_places side up right (i ∷ l) =
    let y = if up then side - 1 - i else i in
    (y, right) ∷ (y, right - 1) ∷ pair_places side up right l

unfoldable pub places_from : ℕ → Bool → List ℕ → List (ℕ × ℕ)
places_from side up [] = []
places_from side up (right ∷ columns) =
    pair_places side up right (upto side) ++ places_from side (not up) columns

-- All of them, in the order in which `wpiszDane` comes to them.
unfoldable pub zigzag : ℕ → List (ℕ × ℕ)
zigzag side = places_from side true (right_columns side (side - 1))

-- `bit < dane.length * 8 && (((dane[bit >> 3] ?? 0) >> (7 - (bit % 8))) & 1) === 1`
unfoldable pub data_bit : List ℕ → ℕ → Bool
data_bit bytes bit =
    ltb bit (length bytes * 8) && bit_at (get_or_else (at? (bit / 8) bytes) 0) (7 - bit % 8)

abbrev pub differ : Bool → Bool → Bool
differ true b = not b
differ false b = b

-- The body of the loops, with the counter of bits, over the modules still to come.
unfoldable pub write_places : List ℕ → ℕ → List (ℕ × ℕ) → ℕ → Grid → Grid
write_places bytes mask [] bit m = m
write_places bytes mask ((y, x) ∷ l) bit m =
    let filled = set_module y x (differ (data_bit bytes bit) (masked mask y x)) m in
    let written = write_places bytes mask l (suc bit) filled in
    let passed = write_places bytes mask l bit m in
    if is_unset (module_at m y x) then written else passed

-- `wpiszDane`
unfoldable pub write_data : List ℕ → ℕ → Grid → Grid
write_data bytes mask m = write_places bytes mask (zigzag m.side) 0 m

-- The matrix of Booleans that `qrMatrixZMaska` returns.
unfoldable pub to_rows : Grid → List (List Bool)
to_rows m = map (λ y. map (λ x. is_dark (module_at m y x)) (upto m.side)) (upto m.side)

-- `qrMatrixZMaska` after the text's bytes are known; none stands for an exception.
unfoldable pub matrix_of : List ℕ → ℕ → Option Grid
matrix_of bytes mask = elim (choose_version (length bytes)) [
  | none ↦ none
  | some v ↦ elim (lay_data bytes v) [
    | none ↦ none
    | some stream ↦ elim (interleave stream v) [
      | none ↦ none
      | some codewords ↦ some (write_data codewords mask (frame v mask))
    ]
  ]
]

unfoldable pub matrix_with_mask : List ℕ → ℕ → Option (List (List Bool))
matrix_with_mask bytes mask = elim (matrix_of bytes mask) [
  | none ↦ none
  | some m ↦ some (to_rows m)
]
