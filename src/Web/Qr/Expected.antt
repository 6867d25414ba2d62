-- ===== src/Web/Qr/Expected.antt =====
-- What web/src/lib/qr.ts lays out is what the standard's reader expects: the order of the modules, the
-- free ones, the masks and the format, in each of the ten versions.
use mekamb_chat.Common.{
  ℕ, zero, suc, ◌+◌, ◌*◌, ◌==◌, ==_iff, ◌<◌, ◌≡◌, refl, sym, ap, subst, ◌∙◌, arith, Bool, true,
  false, not, ◌&&◌, Bool-cases, inl, inr, if◌then◌else◌, get_or_else, List, [], ◌∷◌,
}
use mekamb_chat.Common.Arrays.{replicate}
use mekamb_chat.Common.Bits.{descending, all_below, table_row}
use mekamb_chat.Web.Qr.Grid.{Grid, Module, unset, blank, module_at, set_module, is_unset}
use mekamb_chat.Web.Qr.Information.{masked, format_information, format_remainder}
use mekamb_chat.Web.Qr.Patterns.{
  frame, fixed_patterns, write_format, finder, finder_module, timing, square, alignment,
  version_modules,
}
use mekamb_chat.Web.Qr.Zigzag.{differ, zigzag, right_columns, pair_places, places_from}
use mekamb_chat.Web.Qr.Symbol.{read_places}
use mekamb_chat.Web.Qr.Places.{look, cross, walk, walk_step, zigzags}
use mekamb_chat.Web.Qr.Room.{first_n, rows_of, look-rows_of}
use mekamb_chat.Web.Qr.Scanner.{reading_order, is_reserved, is_flipped, differs, scan, mask_of}

same_places : List (ℕ × ℕ) → List (ℕ × ℕ) → Bool
same_places [] [] = true
same_places [] (q ∷ r) = false
same_places (p ∷ l) [] = false
same_places ((y, x) ∷ l) ((v, u) ∷ r) =
    let rest = same_places l r in if y == v && x == u then rest else false

same_places_lem : (l r : List (ℕ × ℕ)) → same_places l r ≡ true → l ≡ r
unfolding same_places
same_places_lem [] [] h = refl
same_places_lem [] (q ∷ r) h = absurd (cc h)
same_places_lem (p ∷ l) [] h = absurd (cc h)
same_places_lem ((y, x) ∷ l) ((v, u) ∷ r) h = elim (Bool-cases (y == v && x == u)) [
  | inr e ↦ absurd (ground (arith, h))
  | inl e ↦
      let one : y ≡ v = ground arith in
      let two : x ≡ u = ground arith in
      let later : l ≡ r = same_places_lem l r (ground (arith, h)) in cc (one, two, later)
]

orders : all_below 10 (λ k. same_places (zigzag (k * 4 + 21)) (reading_order (k * 4 + 21))) ≡ true
unfolding all_below descending same_places zigzag right_columns pair_places places_from
    reading_order
orders = refl

pub zigzag-reading_order : (k : ℕ) → k < 10 → zigzag (k * 4 + 21) ≡ reading_order (k * 4 + 21)
zigzag-reading_order k h = same_places_lem _ _ (table_row 10 _ k orders h)

pub masked-is_flipped : (mask y x : ℕ) → mask < 8 → masked mask y x ≡ is_flipped mask y x
unfolding masked is_flipped
masked-is_flipped zero y x h = refl
masked-is_flipped (suc zero) y x h = refl
masked-is_flipped (suc (suc zero)) y x h = refl
masked-is_flipped (suc (suc (suc zero))) y x h = refl
masked-is_flipped (suc (suc (suc (suc zero)))) y x h = refl
masked-is_flipped (suc (suc (suc (suc (suc zero))))) y x h = refl
masked-is_flipped (suc (suc (suc (suc (suc (suc zero)))))) y x h = refl
masked-is_flipped (suc (suc (suc (suc (suc (suc (suc zero))))))) y x h = refl
masked-is_flipped (suc (suc (suc (suc (suc (suc (suc (suc n)))))))) y x h = absurd (omega arith)

-- The modules that the frame leaves unset are those that are not reserved.
agrees : ℕ → List (List Module) → List (ℕ × ℕ) → Bool
agrees v rows [] = true
agrees v rows ((y, x) ∷ l) =
    let rest = agrees v rows l in
    let free = is_unset (get_or_else (look (y, x) rows) unset) in
    if (if is_reserved v y x then not free else free) then rest else false

agrees_versions :
    (mask : ℕ)
    → all_below 10 (λ k.
      let f = frame (suc k) mask in agrees (suc k) (rows_of f.side f.side f.cells) (zigzag f.side))
      ≡ true
unfolding agrees is_reserved look first_n rows_of zigzag right_columns pair_places places_from frame
    fixed_patterns write_format finder finder_module timing square alignment version_modules blank
    set_module all_below descending
agrees_versions mask = refl

-- The format of each version and mask, by evaluation.
formats : all_below 10 (λ k. all_below 8 (λ mask. mask_of (frame (suc k) mask) == mask)) ≡ true
unfolding mask_of module_at format_information format_remainder frame fixed_patterns write_format
    finder finder_module timing square alignment version_modules blank set_module all_below
    descending
formats = refl

pub mask_of-frame : (k mask : ℕ) → k < 10 → mask < 8 → mask_of (frame (suc k) mask) ≡ mask
mask_of-frame k mask h h' = (==_iff _ _).0 (table_row 8 _ mask (table_row 10 _ k formats h) h')

differ-differs : (a b : Bool) → differ a b ≡ differs a b
differ-differs true true = refl
differ-differs true false = refl
differ-differs false true = refl
differ-differs false false = refl

both_of :
    (r free rest : Bool)
    → (if (if r then not free else free) then rest else false) ≡ true
    → (free ≡ not r) × (rest ≡ true)
both_of true true rest h = absurd (cc h)
both_of true false rest h = (refl, h)
both_of false true rest h = (refl, h)
both_of false false rest h = absurd (cc h)

agrees_step :
    (v : ℕ) (rows : List (List Module)) (y x : ℕ) (l : List (ℕ × ℕ))
    → agrees v rows ((y, x) ∷ l) ≡ true
    → (is_unset (get_or_else (look (y, x) rows) unset) ≡ not (is_reserved v y x))
      × (agrees v rows l ≡ true)
unfolding agrees
agrees_step v rows y x l h = both_of _ _ _ h

read_rows :
    (v mask : ℕ) (f m : Grid) (l : List (ℕ × ℕ)) (marks : List (List Bool))
    → mask < 8
    → walk f.side l marks ≡ true
    → agrees v (rows_of f.side f.side f.cells) l ≡ true
    → read_places f m mask l ≡ scan v mask m l
unfolding read_places scan agrees module_at
read_rows v mask f m [] marks small w h = refl
read_rows v mask f m ((y, x) ∷ l) marks small w h =
    let (hy, hx, free, rest) = walk_step f.side y x l marks w in
    let at = look-rows_of f.side f.side y x f.cells hy hx in
    let (same, later) = agrees_step v (rows_of f.side f.side f.cells) y x l h in
    let ih = read_rows v mask f m l (cross (y, x) marks) small rest later in
    let free_lem : is_unset (module_at f y x) ≡ not (is_reserved v y x) =
      ap (λ o. is_unset (get_or_else o unset)) (sym at) ∙ same in
    elim (Bool-cases (is_reserved v y x)) [
      | inl e ↦
          let kept : is_unset (module_at f y x) ≡ false = free_lem ∙ ap not e in rw (kept, e) ih
      | inr e ↦
          let kept : is_unset (module_at f y x) ≡ true = free_lem ∙ ap not e in
          rw (kept, e, masked-is_flipped mask y x small, differ-differs, ih) refl
    ]

-- The bits that are read are the same.
pub read_places-scan :
    (k mask : ℕ) (m : Grid)
    → k < 10
    → mask < 8
    → (frame (suc k) mask).side ≡ k * 4 + 21
    → let f = frame (suc k) mask in
      read_places f m mask (zigzag f.side) ≡ scan (suc k) mask m (reading_order f.side)
read_places-scan k mask m h small side_lem =
    let f = frame (suc k) mask in
    let walked : walk f.side (zigzag f.side) (replicate f.side (replicate f.side false)) ≡ true =
      subst (λ n. walk n (zigzag n) (replicate n (replicate n false)) ≡ true) (sym side_lem)
        (table_row 10 _ k zigzags h) in
    let order : zigzag f.side ≡ reading_order f.side =
      subst (λ n. zigzag n ≡ reading_order n) (sym side_lem) (zigzag-reading_order k h) in
    read_rows (suc k) mask f m (zigzag f.side) (replicate f.side (replicate f.side false)) small
      walked (table_row 10 _ k (agrees_versions mask) h)
    ∙ ap (scan (suc k) mask m) order
