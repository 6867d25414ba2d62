-- ===== src/Common/Arrays.antt =====
-- Lists as arrays: reading and writing at an index, as JavaScript's typed arrays do (a read out of
-- range is undefined, a write out of range does nothing).
use Prim.Native.Nat.{ℕ, zero, suc, ◌<◌}
use mathlib.Core.Path.{◌≡◌, refl}
use mathlib.Core.Logic.{◌≢◌}
use mathlib.Core.List.{List, [], ◌∷◌}
use mathlib.Core.Option.{Option, none, some}
use native.Mathlib.Omega.{arith}
use mekamb_chat.Common.Lists.{length}

module _ {ℓ} {A : Type ℓ} where
  -- `l[i]`
  abbrev pub at? : ℕ → List A → Option A
  at? i [] = none
  at? zero (x ∷ l) = some x
  at? (suc i) (x ∷ l) = at? i l

  -- `l[i] = y` on an array of a fixed length.
  abbrev pub put_at : ℕ → A → List A → List A
  put_at i y [] = []
  put_at zero y (x ∷ l) = y ∷ l
  put_at (suc i) y (x ∷ l) = x ∷ put_at i y l

  abbrev pub replicate : ℕ → A → List A
  replicate zero x = []
  replicate (suc n) x = x ∷ replicate n x

  pub length-put_at : (i : ℕ) (y : A) (l : List A) → length (put_at i y l) ≡ length l
  length-put_at i y [] = refl
  length-put_at zero y (x ∷ l) = refl
  length-put_at (suc i) y (x ∷ l) = omega (arith, length-put_at i y l)

  pub at?_bound : (i : ℕ) (l : List A) (b : A) → at? i l ≡ some b → i < length l
  at?_bound i [] b h = absurd (cc h)
  at?_bound zero (x ∷ l) b h = omega arith
  at?_bound (suc i) (x ∷ l) b h = omega (arith, at?_bound i l b h)

  pub at?-put_at_same : (i : ℕ) (y : A) (l : List A) → i < length l → at? i (put_at i y l) ≡ some y
  at?-put_at_same i y [] h = absurd (omega arith)
  at?-put_at_same zero y (x ∷ l) h = refl
  at?-put_at_same (suc i) y (x ∷ l) h = at?-put_at_same i y l (omega arith)

  pub at?-put_at_other : (i j : ℕ) (y : A) (l : List A) → i ≢ j → at? j (put_at i y l) ≡ at? j l
  at?-put_at_other i j y [] h = refl
  at?-put_at_other zero zero y (x ∷ l) h = absurd (h refl)
  at?-put_at_other zero (suc j) y (x ∷ l) h = refl
  at?-put_at_other (suc i) zero y (x ∷ l) h = refl
  at?-put_at_other (suc i) (suc j) y (x ∷ l) h = at?-put_at_other i j y l (λ e. h (omega arith))

-- A new array of numbers.
abbrev pub zeros : ℕ → List ℕ
zeros n = replicate n 0
