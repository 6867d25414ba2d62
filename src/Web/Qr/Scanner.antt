-- ===== src/Web/Qr/Scanner.antt =====
-- A reader of QR symbols by the standard (ISO/IEC 18004), written apart from web/src/lib/qr.ts: the
-- version by the side, the mask by the format modules, which modules are for data, in which order they
-- are read, and the eight masks.
use mekamb_chat.Common.{
  ℕ, ◌+◌, ◌-◌, ◌*◌, ◌/◌, ◌%◌, ◌==◌, Bool, not, ◌&&◌, ◌||◌, ltb, leb, if◌then◌else◌, any, map,
  get_or_else, List, [], ◌∷◌,
}
use mekamb_chat.Common.Arrays.{at?}
use mekamb_chat.Web.Qr.Grid.{Grid, module_at, is_dark, upto}

-- The column on the right of a pair, counted from the right; the column of the timing is left out.
abbrev pub pair_column : ℕ → ℕ → ℕ
pair_column side k = let c = side - 1 - 2 * k in if leb c 6 then c - 1 else c

-- The module that is read as the n-th: pair by pair from the right, the first upwards and then in
-- turns, in each row the right module first.
abbrev pub nth_place : ℕ → ℕ → ℕ × ℕ
nth_place side n =
    let k = n / (2 * side) in
    let j = n % (2 * side) in
    (if k % 2 == 0 then side - 1 - j / 2 else j / 2, pair_column side k - j % 2)

unfoldable pub reading_order : ℕ → List (ℕ × ℕ)
reading_order side = map (nth_place side) (upto (side * (side - 1)))

-- The lines on which alignment patterns are centred.
abbrev pub centres : ℕ → List ℕ
centres v =
    let last = v * 4 + 10 in
    if v == 1 then [] else if ltb v 7 then 6 ∷ last ∷ [] else 6 ∷ (6 + last) / 2 ∷ last ∷ []

abbrev pub is_near : ℕ → ℕ → Bool
is_near y c = leb y (c + 2) && leb c (y + 2)

-- Where two lines meet there is a pattern, but for the corners with finders.
abbrev pub is_aligning : ℕ → ℕ → ℕ → Bool
is_aligning v y x =
    let last = v * 4 + 10 in
    any
      (λ a.
        any
          (λ b.
            not ((a == 6 && (b == 6 || b == last)) || (a == last && b == 6))
            && (is_near y a && is_near x b))
          (centres v))
      (centres v)

-- The three corners with finders and format, the timing, the alignment, and the version from 7 on.
unfoldable pub is_reserved : ℕ → ℕ → ℕ → Bool
is_reserved v y x =
    let side = v * 4 + 17 in
    ((leb y 8 && (leb x 8 || leb (side - 8) x)) || (leb (side - 8) y && leb x 8))
    || ((y == 6 || x == 6)
        || (is_aligning v y x
            || (leb 7 v
                && ((ltb y 6 && (leb (side - 11) x && ltb x (side - 8)))
                    || (ltb x 6 && (leb (side - 11) y && ltb y (side - 8)))))))

-- The condition of each mask, in row i and column j.
unfoldable pub is_flipped : ℕ → ℕ → ℕ → Bool
is_flipped mask i j =
    get_or_else
      (at? mask (
        (i + j) % 2
        ∷ i % 2
        ∷ j % 3
        ∷ (i + j) % 3
        ∷ (i / 2 + j / 3) % 2
        ∷ ((i * j) % 2 + (i * j) % 3)
        ∷ ((i * j) % 2 + (i * j) % 3) % 2
        ∷ ((i + j) % 2 + (i * j) % 3) % 2
        ∷ []))
      1
    == 0

abbrev pub differs : Bool → Bool → Bool
differs a b = if b then not a else a

-- The bits for data, their mask taken off.
unfoldable pub scan : ℕ → ℕ → Grid → List (ℕ × ℕ) → List Bool
scan v mask m [] = []
scan v mask m ((y, x) ∷ l) =
    let rest = scan v mask m l in
    if is_reserved v y x
    then rest
    else differs (is_dark (module_at m y x)) (is_flipped mask y x) ∷ rest

abbrev pub version_of : Grid → ℕ
version_of m = (m.side - 17) / 4

abbrev pub number_of : Bool → Bool → Bool → ℕ
number_of a b c = (if a then 4 else 0) + ((if b then 2 else 0) + (if c then 1 else 0))

-- The three bits of the mask in the format beside the first finder; 101 is what the standard adds.
unfoldable pub mask_of : Grid → ℕ
mask_of m =
    number_of (not (is_dark (module_at m 8 2))) (is_dark (module_at m 8 3))
      (not (is_dark (module_at m 8 4)))
