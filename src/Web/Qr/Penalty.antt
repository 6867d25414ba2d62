-- ===== src/Web/Qr/Penalty.antt =====
-- web/src/lib/qr.ts: `kara`, the four rules, and `qrMatrix`, the choice of the mask.
use mekamb_chat.Common.{ℕ, zero, suc, ◌+◌, ◌-◌, ◌*◌, ◌/◌, ltb, leb, length, map, count}
use mekamb_chat.Common.{Bool, true, false, not, ◌&&◌, if◌then◌else◌, get_or_else}
use mekamb_chat.Common.{Option, none, some, List, [], ◌∷◌}
use mekamb_chat.Common.Arrays.{at?}
use mekamb_chat.Web.Qr.Grid.{upto}
use mekamb_chat.Web.Qr.Zigzag.{matrix_with_mask}

abbrev pub Rows : Type 0
Rows = List (List Bool)

-- `m[y]?.[x] ?? false`
unfoldable pub field : Rows → ℕ → ℕ → Bool
field m y x = elim (at? y m) [ none ↦ false | some row ↦ get_or_else (at? x row) false ]

abbrev pub same : Bool → Bool → Bool
same true b = b
same false b = not b

abbrev sum_over : List ℕ → (ℕ → ℕ) → ℕ
sum_over [] f = 0
sum_over (i ∷ l) f = f i + sum_over l f

-- `if (dlugosc >= 5) suma += 3 + (dlugosc - 5);`
abbrev band : ℕ → ℕ
band n = if leb 5 n then 3 + (n - 5) else 0

-- A line of rule 1: the modules after the first, with the length of the band so far.
unfoldable pub bands : Bool → ℕ → List Bool → ℕ
bands before n [] = band n
bands before n (now ∷ l) =
    let longer = bands now (suc n) l in
    let ended = bands now 1 l in if same now before then longer else band n + ended

unfoldable pub line_penalty : List Bool → ℕ
line_penalty [] = band 1
line_penalty (b ∷ l) = bands b 1 l

unfoldable pub bands_penalty : Rows → ℕ
bands_penalty m =
    let side = length m in
    sum_over (upto side) (λ i.
      line_penalty (map (λ j. field m i j) (upto side))
      + line_penalty (map (λ j. field m j i) (upto side)))

unfoldable pub squares_penalty : Rows → ℕ
squares_penalty m =
    let side = length m in
    sum_over (upto (side - 1)) (λ y. sum_over (upto (side - 1)) (λ x.
      let a = field m y x in
      if same a (field m y (x + 1))
        && (same a (field m (y + 1) x) && same a (field m (y + 1) (x + 1)))
      then 3
      else 0))

abbrev finder_like : List (List Bool)
finder_like =
    (true ∷ false ∷ true ∷ true ∷ true ∷ false ∷ true ∷ false ∷ false ∷ false ∷ false ∷ [])
    ∷ (false ∷ false ∷ false ∷ false ∷ true ∷ false ∷ true ∷ true ∷ true ∷ false ∷ true ∷ [])
    ∷ []

-- Whether the eleven modules from a place on are those of a pattern.
unfoldable pub matches : (ℕ → Bool) → ℕ → List Bool → Bool
matches f k [] = true
matches f k (b ∷ pattern) = same (f k) b && matches f (suc k) pattern

unfoldable pub finders_penalty : Rows → ℕ
finders_penalty m =
    let side = length m in
    sum_over (upto side) (λ i. sum_over (upto (side + 1 - 11)) (λ j. pattern_sum i j finder_like))
  where
    pattern_sum : ℕ → ℕ → List (List Bool) → ℕ
    pattern_sum i j [] = 0
    pattern_sum i j (pattern ∷ l) =
        (if matches (λ k. field m i (j + k)) 0 pattern then 40 else 0)
        + (if matches (λ k. field m (j + k) i) 0 pattern then 40 else 0)
        + pattern_sum i j l

abbrev dark_in : Rows → ℕ
dark_in [] = 0
dark_in (row ∷ l) = count (λ b. b) row + dark_in l

-- `Math.floor(Math.abs(procent - 50) / 5) * 10` with the percentage as an exact quotient.
unfoldable pub balance_penalty : Rows → ℕ
balance_penalty m =
    let area = length m * length m in
    let dark = dark_in m * 100 in ((dark - 50 * area) + (50 * area - dark)) / (5 * area) * 10

-- `kara`
unfoldable pub penalty : Rows → ℕ
penalty m = bands_penalty m + squares_penalty m + finders_penalty m + balance_penalty m

-- The loop of `qrMatrix` over the masks from 1 on, with the best matrix so far and its penalty.
unfoldable pub choose_mask : ℕ → ℕ → List ℕ → Rows → ℕ → Option Rows
choose_mask zero mask bytes best lowest = some best
choose_mask (suc n) mask bytes best lowest = elim (matrix_with_mask bytes mask) [
  | none ↦ none
  | some ready ↦
      let score = penalty ready in
      let better = choose_mask n (suc mask) bytes ready score in
      let kept = choose_mask n (suc mask) bytes best lowest in
      if ltb score lowest then better else kept
]

-- `qrMatrix`, on the text's bytes; none stands for the exception.
unfoldable pub matrix : List ℕ → Option Rows
matrix bytes = elim (matrix_with_mask bytes 0) [
  | none ↦ none
  | some first ↦ choose_mask 7 1 bytes first (penalty first)
]
