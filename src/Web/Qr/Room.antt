-- ===== src/Web/Qr/Room.antt =====
-- web/src/lib/qr.ts: in each of the ten versions, how many modules are left for the data.
use mekamb_chat.Common.{ℕ, zero, suc, ◌+◌, ◌*◌, ◌≤◌, ◌<◌, ◌≡◌, refl, sym, ap, subst, ◌∙◌, arith}
use mekamb_chat.Common.{Bool, true, false, ◌&&◌, ◌==◌, ==_iff, leb, leb→le, if◌then◌else◌}
use mekamb_chat.Common.{length, drop, get_or_else, none, some, List, [], ◌∷◌}
use mekamb_chat.Common.Arrays.{at?, replicate}
use mekamb_chat.Common.Bits.{descending, all_below, table_row}
use mekamb_chat.Web.Qr.Grid.{Grid, Module, unset, blank, module_at, set_module, is_unset}
use mekamb_chat.Web.Qr.Versions.{parameters, data_bytes}
use mekamb_chat.Web.Qr.Interleave.{sizes}
use mekamb_chat.Web.Qr.Patterns.{
  frame, fixed_patterns, write_format, finder, finder_module, timing, square, alignment,
  version_modules,
}
use mekamb_chat.Web.Qr.Zigzag.{zigzag, right_columns, pair_places, places_from}
use mekamb_chat.Web.Qr.Symbol.{Apart, free_places}
use mekamb_chat.Web.Qr.Places.{look, walk, walk_step, walk-Apart, zigzags}

module _ {ℓ} {A : Type ℓ} where
  unfoldable pub first_n : ℕ → List A → List A
  first_n zero l = []
  first_n (suc n) [] = []
  first_n (suc n) (a ∷ l) = a ∷ first_n n l

  unfoldable pub rows_of : ℕ → ℕ → List A → List (List A)
  rows_of zero side l = []
  rows_of (suc n) side l = first_n side l ∷ rows_of n side (drop side l)

  at?-first_n : (n i : ℕ) (l : List A) → i < n → at? i (first_n n l) ≡ at? i l
  unfolding first_n
  at?-first_n zero i l h = absurd (omega arith)
  at?-first_n (suc n) i [] h = refl
  at?-first_n (suc n) zero (a ∷ l) h = refl
  at?-first_n (suc n) (suc i) (a ∷ l) h = at?-first_n n i l (omega arith)

  at?-drop : (n i : ℕ) (l : List A) → at? i (drop n l) ≡ at? (n + i) l
  at?-drop zero i l = ap (λ t. at? t l) (omega arith)
  at?-drop (suc n) i [] = refl
  at?-drop (suc n) i (a ∷ l) = at?-drop n i l ∙ ap (λ t. at? t (a ∷ l)) (suc_plus n i)
    where
      suc_plus : (x y : ℕ) → suc (x + y) ≡ suc x + y
      suc_plus x y = omega arith

  pub look-rows_of :
      (n side y x : ℕ) (l : List A)
      → y < n
      → x < side
      → look (y, x) (rows_of n side l) ≡ at? (y * side + x) l
  unfolding look rows_of
  look-rows_of zero side y x l hy hx = absurd (omega arith)
  look-rows_of (suc n) side zero x l hy hx =
      at?-first_n side x l hx ∙ ap (λ t. at? t l) (omega arith)
  look-rows_of (suc n) side (suc y) x l hy hx =
      look-rows_of n side y x (drop side l) (omega arith) hx
      ∙ at?-drop side (y * side + x) l
      ∙ ap (λ t. at? t l) (omega arith)

-- The free places, counted on the rows.
unfoldable free_in_rows : List (List Module) → List (ℕ × ℕ) → ℕ
free_in_rows rows [] = 0
free_in_rows rows (p ∷ l) =
    let rest = free_in_rows rows l in
    if is_unset (get_or_else (look p rows) unset) then suc rest else rest

free_places-rows :
    (f : Grid) (l : List (ℕ × ℕ)) (marks : List (List Bool))
    → walk f.side l marks ≡ true
    → free_places f l ≡ free_in_rows (rows_of f.side f.side f.cells) l
unfolding free_places free_in_rows module_at
free_places-rows f [] marks h = refl
free_places-rows f ((y, x) ∷ l) marks h =
    let (hy, hx, free, rest) = walk_step f.side y x l marks h in
    rw (look-rows_of f.side f.side y x f.cells hy hx, free_places-rows f l _ rest) refl

-- How many bytes a version's codewords are.
unfoldable pub codeword_bytes : ℕ → ℕ
codeword_bytes v = elim (parameters v) [
  | none ↦ 0
  | some p ↦ data_bytes p + p.ec * length (sizes p.groups)
]

unfoldable roomy : ℕ → ℕ → Bool
roomy mask v =
    let f = frame v mask in
    (f.side == v * 4 + 17)
    && ((length f.cells == f.side * f.side)
        && leb (codeword_bytes v * 8)
            (free_in_rows (rows_of f.side f.side f.cells) (zigzag f.side)))

-- Every version, by evaluation; the mask is any.
roomy_versions : (mask : ℕ) → all_below 10 (λ k. roomy mask (suc k)) ≡ true
unfolding roomy look first_n rows_of free_in_rows codeword_bytes parameters data_bytes sizes zigzag
    right_columns pair_places places_from frame fixed_patterns write_format finder finder_module
    timing square alignment version_modules blank set_module all_below descending
roomy_versions mask = refl

-- In each version, whatever the mask: the side of the frame, places in the matrix and no two the
-- same, and a free module for every bit of the codewords.
pub record Prepared (mask v : ℕ) : Type 0 where
  pub square_side : (frame v mask).side ≡ v * 4 + 17
  pub apart : Apart (frame v mask).side (length (frame v mask).cells) (zigzag (frame v mask).side)
  pub room : codeword_bytes v * 8 ≤ free_places (frame v mask) (zigzag (frame v mask).side)

Prepared-suc : (mask k : ℕ) → k < 10 → Prepared mask (suc k)
unfolding roomy
Prepared-suc mask k h = record {
  square_side = side_eq;
  apart = subst (λ n. Apart f.side n l) (sym cells_eq) (walk-Apart f.side l marks walked);
  room = subst (λ n. codeword_bytes (suc k) * 8 ≤ n) (sym (free_places-rows f l marks walked)) fits;
}
  where
    f : Grid
    f = frame (suc k) mask

    l : List (ℕ × ℕ)
    l = zigzag f.side

    marks : List (List Bool)
    marks = replicate f.side (replicate f.side false)

    facts : roomy mask (suc k) ≡ true
    facts = table_row 10 _ k (roomy_versions mask) h

    three : (a b c : Bool) → (a && (b && c)) ≡ true → (a ≡ true) × (b ≡ true) × (c ≡ true)
    three true true true e = (refl, refl, refl)
    three true true false e = absurd (cc e)
    three true false c e = absurd (cc e)
    three false b c e = absurd (cc e)

    parts :
        ((f.side == suc k * 4 + 17) ≡ true)
        × ((length f.cells == f.side * f.side) ≡ true)
        × (leb (codeword_bytes (suc k) * 8) (free_in_rows (rows_of f.side f.side f.cells) l) ≡ true)
    parts = three _ _ _ facts

    side_of : (j : ℕ) → j * 4 + 21 ≡ suc j * 4 + 17
    side_of j = omega arith

    fits : codeword_bytes (suc k) * 8 ≤ free_in_rows (rows_of f.side f.side f.cells) l
    fits = leb→le _ _ parts.2

    side_eq : f.side ≡ suc k * 4 + 17
    side_eq = (==_iff _ _).0 parts.0

    cells_eq : length f.cells ≡ f.side * f.side
    cells_eq = (==_iff _ _).0 parts.1

    walked : walk f.side l marks ≡ true
    walked =
        subst (λ n. walk n (zigzag n) (replicate n (replicate n false)) ≡ true)
          (side_of k ∙ sym side_eq) (table_row 10 _ k zigzags h)

pub prepared : (mask v : ℕ) → 1 ≤ v → v ≤ 10 → Prepared mask v
prepared mask zero lo hi = absurd (omega arith)
prepared mask (suc k) lo hi = Prepared-suc mask k hi
