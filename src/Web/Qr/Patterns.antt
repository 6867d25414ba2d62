-- ===== src/Web/Qr/Patterns.antt =====
-- web/src/lib/qr.ts: `wzoryStale` and `wpiszFormat`, the modules that do not carry data.
use mekamb_chat.Common.{ℕ, ◌+◌, ◌-◌, ◌*◌, ◌/◌, ◌%◌, ◌==◌, ltb, leb, max, if◌then◌else◌}
use mekamb_chat.Common.{Bool, true, not, ◌&&◌, ◌||◌, get_or_else, List, [], ◌∷◌}
use mekamb_chat.Common.Arrays.{at?}
use mekamb_chat.Web.Qr.Grid.{Grid, blank, set_module, each, upto, from_on}
use mekamb_chat.Web.Qr.Information.{bit_at, version_information, format_information}

-- `WYROWNANIE`
abbrev alignment_table : List (List ℕ)
alignment_table =
    []
    ∷ (6 ∷ 18 ∷ [])
    ∷ (6 ∷ 22 ∷ [])
    ∷ (6 ∷ 26 ∷ [])
    ∷ (6 ∷ 30 ∷ [])
    ∷ (6 ∷ 34 ∷ [])
    ∷ (6 ∷ 22 ∷ 38 ∷ [])
    ∷ (6 ∷ 24 ∷ 42 ∷ [])
    ∷ (6 ∷ 26 ∷ 46 ∷ [])
    ∷ (6 ∷ 28 ∷ 50 ∷ [])
    ∷ []

-- One module of a finder pattern with its separator: the source's y and x from -1 to 7 are counted
-- here from 0 to 8, and what falls outside of the matrix is passed over.
unfoldable pub finder_module : ℕ → ℕ → ℕ → ℕ → Grid → Grid
finder_module top left y x m =
    let outside =
      (top + y == 0) || (ltb m.side (top + y) || ((left + x == 0) || ltb m.side (left + x))) in
    let separator = (y == 0) || ((y == 8) || ((x == 0) || (x == 8))) in
    let border = (y == 1) || ((y == 7) || ((x == 1) || (x == 7))) in
    let middle = (leb 3 y && leb y 5) && (leb 3 x && leb x 5) in
    if outside
    then m
    else set_module (top + y - 1) (left + x - 1) (not separator && (border || middle)) m

unfoldable pub finder : ℕ × ℕ → Grid → Grid
finder (top, left) m = each (upto 9) (λ y. each (upto 9) (λ x. finder_module top left y x)) m

-- `ustaw(m, 6, i, i % 2 === 0); ustaw(m, i, 6, i % 2 === 0);` for i from 8 below the side less 8.
unfoldable pub timing : Grid → Grid
timing m =
    each (from_on (m.side - 16) 8)
      (λ i m. set_module i 6 (i % 2 == 0) (set_module 6 i (i % 2 == 0) m)) m

-- A square of five around (y, x): the source's dy and dx from -2 to 2 are counted from 0 to 4.
unfoldable pub square : ℕ → ℕ → Grid → Grid
square y x m =
    each (upto 5)
      (λ dy. each (upto 5) (λ dx. set_module (y + dy - 2) (x + dx - 2) (not (ring dy dx)))) m
  where
    distance : ℕ → ℕ
    distance d = (d - 2) + (2 - d)

    ring : ℕ → ℕ → Bool
    ring dy dx = max (distance dy) (distance dx) == 1

unfoldable pub alignment : ℕ → Grid → Grid
alignment v m =
    let centres = get_or_else (at? (v - 1) alignment_table) [] in
    let last = m.side - 7 in
    each centres
      (λ y. each centres (λ x m.
        if ((y == 6) && (x == 6)) || (((y == 6) && (x == last)) || ((y == last) && (x == 6)))
        then m
        else square y x m))
      m

unfoldable pub version_modules : ℕ → Grid → Grid
version_modules v m =
    let bits = version_information v in
    if leb 7 v
    then each (upto 18)
        (λ i m.
          let x = m.side - 11 + i % 3 in
          set_module x (i / 3) (bit_at bits i) (set_module (i / 3) x (bit_at bits i) m))
        m
    else m

-- `wzoryStale`
unfoldable pub fixed_patterns : ℕ → Grid → Grid
fixed_patterns v m = version_modules v (
    set_module (m.side - 8) 8 true
      (alignment v (timing (each ((0, 0) ∷ (0, m.side - 7) ∷ (m.side - 7, 0) ∷ []) finder m))))

-- `wpiszFormat`
unfoldable pub write_format : ℕ → Grid → Grid
write_format mask m =
    let bits = format_information mask in
    let row = each (upto 6) (λ x. set_module 8 x (bit_at bits (14 - x))) m in
    let corner =
      set_module 7 8 (bit_at bits 6)
        (set_module 8 8 (bit_at bits 7) (set_module 8 7 (bit_at bits 8) row)) in
    let column = each (upto 6) (λ y. set_module y 8 (bit_at bits y)) corner in
    let second = each (upto 8) (λ j. set_module 8 (m.side - 1 - j) (bit_at bits j)) column in
    each (upto 7) (λ i. set_module (m.side - 1 - i) 8 (bit_at bits (14 - i))) second

-- The matrix before the data are written.
unfoldable pub frame : ℕ → ℕ → Grid
frame v mask = write_format mask (fixed_patterns v (blank (v * 4 + 17)))
