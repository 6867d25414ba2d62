-- ===== src/Web/Qr/Places.antt =====
-- web/src/lib/qr.ts: the places that `wpiszDane` comes to, in each of the ten versions.
use mekamb_chat.Common.{ℕ, suc, ◌+◌, ◌*◌, ◌/◌, ◌<◌, ◌≡◌, ◌≢◌, refl, sym, ap, ◌∙◌, arith}
use mekamb_chat.Common.{Bool, true, false, not, ltb, ◌&&◌, if◌then◌else◌, inl, inr, ◌⊎◌, ℕ_discrete}
use mekamb_chat.Common.{Option, Option-cases, none, some, List, [], ◌∷◌}
use mekamb_chat.Common.Arrays.{at?, at?_bound, put_at, replicate, at?-put_at_other, at?-put_at_same}
use native.Mathlib.Nat.{mul-le-mul_right, mul-add-div_right, div-eq_of_lt}
use mekamb_chat.Common.Bits.{descending, all_below}
use mekamb_chat.Web.Qr.Zigzag.{zigzag, right_columns, pair_places, places_from}
use mekamb_chat.Web.Qr.Symbol.{Apart, Avoids, index}

-- Marks in rows, so that the walk below is quick to evaluate.
unfoldable pub look {ℓ} : {A : Type ℓ} → ℕ × ℕ → List (List A) → Option A
look (y, x) rows = elim (at? y rows) [ none ↦ none | some row ↦ at? x row ]

unfoldable pub cross : ℕ × ℕ → List (List Bool) → List (List Bool)
cross (y, x) rows = elim (at? y rows) [ none ↦ rows | some row ↦ put_at y (put_at x true row) rows ]

look_row :
    (y x : ℕ) (rows : List (List Bool)) (row : List Bool)
    → at? y rows ≡ some row
    → look (y, x) rows ≡ at? x row
unfolding look
look_row y x rows row e = rw (look, e) refl

cross_row :
    (y x : ℕ) (rows : List (List Bool)) (row : List Bool)
    → at? y rows ≡ some row
    → cross (y, x) rows ≡ put_at y (put_at x true row) rows
unfolding cross
cross_row y x rows row e = rw (cross, e) refl

cross_nothing : (y x : ℕ) (rows : List (List Bool)) → at? y rows ≡ none → cross (y, x) rows ≡ rows
unfolding cross
cross_nothing y x rows e = rw (cross, e) refl

look_found :
    (y x : ℕ) (rows : List (List Bool)) (b : Bool)
    → look (y, x) rows ≡ some b
    → (row : List Bool) × (at? y rows ≡ some row) × (at? x row ≡ some b)
unfolding look
look_found y x rows b h = elim (Option-cases (at? y rows)) [
  | inl e ↦ absurd (cc (rw (look, e) at h))
  | inr (row, e) ↦ (row, e, rw (look, e) at h)
]

look-cross_same :
    (y x : ℕ) (rows : List (List Bool)) (b : Bool)
    → look (y, x) rows ≡ some b
    → look (y, x) (cross (y, x) rows) ≡ some true
look-cross_same y x rows b h =
    let (row, e, found) = look_found y x rows b h in
    ap (look (y, x)) (cross_row y x rows row e)
    ∙ look_row y x _ (put_at x true row)
        (at?-put_at_same y (put_at x true row) rows (at?_bound y rows row e))
    ∙ at?-put_at_same x true row (at?_bound x row b found)

look-cross_other :
    (y x v u : ℕ) (rows : List (List Bool))
    → (y ≢ v) ⊎ (x ≢ u)
    → look (v, u) (cross (y, x) rows) ≡ look (v, u) rows
unfolding look
look-cross_other y x v u rows other = elim (Option-cases (at? y rows)) [
  | inl e ↦ ap (look (v, u)) (cross_nothing y x rows e)
  | inr (row, e) ↦ ap (look (v, u)) (cross_row y x rows row e) ∙ elim (ℕ_discrete y v) [
    | yes same ↦
        ap (λ t. look (t, u) (put_at y (put_at x true row) rows)) (sym same)
        ∙ look_row y u _ (put_at x true row)
            (at?-put_at_same y (put_at x true row) rows (at?_bound y rows row e))
        ∙ at?-put_at_other x u true row (same_row same other)
        ∙ sym (look_row y u rows row e)
        ∙ ap (λ t. look (t, u) rows) same
    | no apart ↦
        ap (λ t. elim t [ none ↦ none | some r ↦ at? u r ])
          (at?-put_at_other y v (put_at x true row) rows apart)
  ]
]
  where
    same_row : y ≡ v → (y ≢ v) ⊎ (x ≢ u) → x ≢ u
    same_row same (inl h) = absurd (h same)
    same_row same (inr h) = h

-- A walk that crosses off each place, and fails at one that is crossed off or outside.
abbrev pub is_free : Option Bool → Bool
is_free none = false
is_free (some b) = not b

unfoldable pub walk : ℕ → List (ℕ × ℕ) → List (List Bool) → Bool
walk side [] marks = true
walk side ((y, x) ∷ l) marks =
    let rest = walk side l (cross (y, x) marks) in
    if (ltb y side && ltb x side) && is_free (look (y, x) marks) then rest else false

-- Different places have different indices.
index_lem :
    (side y x v u : ℕ)
    → x < side
    → u < side
    → index side (y, x) ≡ index side (v, u)
    → (y ≡ v) × (x ≡ u)
index_lem side y x v u hx hu e =
    let rows : y ≡ v = sym (row_of side y x hx) ∙ ap (λ t. t / side) e ∙ row_of side v u hu in
    (rows, omega (arith, e, ap (λ (t : ℕ). t * side) rows))
  where
    row_of : (side y x : ℕ) → x < side → (y * side + x) / side ≡ y
    row_of side y x h =
        mul-add-div_right {m = side} (omega arith) y x ∙ omega (arith, div-eq_of_lt h)

index_inside : (side y x : ℕ) → y < side → x < side → index side (y, x) < side * side
index_inside side y x hy hx = omega (arith, mul-le-mul_right {m = suc y} {n = side} side hy)

pub walk_step :
    (side y x : ℕ) (l : List (ℕ × ℕ)) (marks : List (List Bool))
    → walk side ((y, x) ∷ l) marks ≡ true
    → (y < side)
      × (x < side)
      × (look (y, x) marks ≡ some false)
      × (walk side l (cross (y, x) marks) ≡ true)
unfolding walk
walk_step side y x l marks h =
    let (test, rest) = both_hold ((ltb y side && ltb x side) && is_free (look (y, x) marks)) _ h in
    (
      ground (arith, test),
      ground (arith, test),
      free_mark (look (y, x) marks) (ground (arith, test)),
      rest,
    )
  where
    both_hold : (a r : Bool) → (if a then r else false) ≡ true → (a ≡ true) × (r ≡ true)
    both_hold true r h = (refl, h)
    both_hold false r h = absurd (cc h)

    free_mark : (o : Option Bool) → is_free o ≡ true → o ≡ some false
    free_mark none h = absurd (cc h)
    free_mark (some true) h = absurd (cc h)
    free_mark (some false) h = refl

-- Nothing that is crossed off is met again.
walk-Avoids :
    (side y x : ℕ) (l : List (ℕ × ℕ)) (marks : List (List Bool))
    → x < side
    → look (y, x) marks ≡ some true
    → walk side l marks ≡ true
    → Avoids side (index side (y, x)) l
walk-Avoids side y x [] marks hx e h = tt
walk-Avoids side y x ((v, u) ∷ l) marks hx e h =
    let (hv, hu, free, rest) = walk_step side v u l marks h in
    let other : (v ≢ y) ⊎ (u ≢ x) = differs v u y x marks free e in
    (
      λ same. clash (index_lem side v u y x hu hx same) other,
      walk-Avoids side y x l (cross (v, u) marks) hx (look-cross_other v u y x marks other ∙ e)
          rest,
    )
  where
    clash : {v u y x : ℕ} → (v ≡ y) × (u ≡ x) → ¬ ((v ≢ y) ⊎ (u ≢ x))
    clash (p, q) (inl h) = h p
    clash (p, q) (inr h) = h q

    differs :
        (v u y x : ℕ) (marks : List (List Bool))
        → look (v, u) marks ≡ some false
        → look (y, x) marks ≡ some true
        → (v ≢ y) ⊎ (u ≢ x)
    differs v u y x marks p q = elim (ℕ_discrete v y) [
      | no apart ↦ inl apart
      | yes e ↦
          inr
            (λ f. absurd (cc (p, q, ap (λ t. look (t, u) marks) e, ap (λ t. look (y, t) marks) f)))
    ]

pub walk-Apart :
    (side : ℕ) (l : List (ℕ × ℕ)) (marks : List (List Bool))
    → walk side l marks ≡ true
    → Apart side (side * side) l
unfolding Apart
walk-Apart side [] marks h = tt
walk-Apart side ((y, x) ∷ l) marks h =
    let (hy, hx, free, rest) = walk_step side y x l marks h in
    (
      index_inside side y x hy hx,
      walk-Avoids side y x l (cross (y, x) marks) hx (look-cross_same y x marks false free) rest,
      walk-Apart side l (cross (y, x) marks) rest,
    )

-- The zigzag of each of the ten versions, by evaluation.
pub zigzags :
    all_below 10 (λ k.
      walk
        (k * 4 + 21)
        (zigzag (k * 4 + 21))
        (replicate (k * 4 + 21) (replicate (k * 4 + 21) false)))
    ≡ true
unfolding all_below descending walk look cross zigzag right_columns pair_places places_from
zigzags = refl
