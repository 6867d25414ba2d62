-- ===== src/Web/Qr/Symbol.antt =====
-- web/src/lib/qr.ts, `wpiszDane`: a reader that goes over the modules in the same order.
use mekamb_chat.Common.{ℕ, zero, suc, ◌+◌, ◌*◌, ◌<◌, ◌≡◌, ◌≢◌, refl, sym, ap, subst, ◌∙◌}
use mekamb_chat.Common.{Bool, true, false, if◌then◌else◌, Bool-cases, inl, inr, length, All}
use mekamb_chat.Common.{get_or_else, some, List, [], ◌∷◌}
use mekamb_chat.Common.Arrays.{at?, put_at, length-put_at, at?-put_at_same, at?-put_at_other}
use mekamb_chat.Web.Qr.Grid.{Grid, Module, unset, filled, module_at, set_module, is_unset, is_dark}
use mekamb_chat.Web.Qr.Information.{masked}
use mekamb_chat.Web.Qr.Zigzag.{data_bit, differ, write_places}

-- The bits of a finished symbol: the modules that are free in the frame, their mask taken off.
unfoldable pub read_places : Grid → Grid → ℕ → List (ℕ × ℕ) → List Bool
read_places f m mask [] = []
read_places f m mask ((y, x) ∷ l) =
    let rest = read_places f m mask l in
    if is_unset (module_at f y x)
    then differ (is_dark (module_at m y x)) (masked mask y x) ∷ rest
    else rest

-- The bits that the writer takes, from a position on.
unfoldable pub data_bits : List ℕ → ℕ → ℕ → List Bool
data_bits bytes zero bit = []
data_bits bytes (suc n) bit = data_bit bytes bit ∷ data_bits bytes n (suc bit)

unfoldable pub free_places : Grid → List (ℕ × ℕ) → ℕ
free_places f [] = 0
free_places f ((y, x) ∷ l) =
    let rest = free_places f l in if is_unset (module_at f y x) then suc rest else rest

abbrev pub index : ℕ → ℕ × ℕ → ℕ
index side (y, x) = y * side + x

abbrev pub Avoids : ℕ → ℕ → List (ℕ × ℕ) → Type 0
Avoids side i l = All (λ p. index side p ≢ i) l

-- Places in a matrix of n modules, no two the same.
unfoldable pub Apart : ℕ → ℕ → List (ℕ × ℕ) → Type 0
Apart side n [] = Unit
Apart side n (p ∷ l) = (index side p < n) × Avoids side (index side p) l × Apart side n l

taken :
    (bytes : List ℕ) (n bit : ℕ)
    → data_bit bytes bit ∷ data_bits bytes n (suc bit) ≡ data_bits bytes (suc n) bit
unfolding data_bits
taken bytes n bit = refl

differ_twice : (a b : Bool) → differ (differ a b) b ≡ a
differ_twice true true = refl
differ_twice true false = refl
differ_twice false true = refl
differ_twice false false = refl

-- What no place writes stays.
write_places_kept :
    (bytes : List ℕ) (mask i : ℕ) (l : List (ℕ × ℕ)) (bit : ℕ) (m : Grid)
    → Avoids m.side i l
    → at? i (write_places bytes mask l bit m).cells ≡ at? i m.cells
unfolding write_places set_module
write_places_kept bytes mask i [] bit m h = refl
write_places_kept bytes mask i ((y, x) ∷ l) bit m (h, hs) =
    elim (Bool-cases (is_unset (module_at m y x))) [
      | inl e ↦
          let value = differ (data_bit bytes bit) (masked mask y x) in
          rw e (
            write_places_kept bytes mask i l (suc bit) (set_module y x value m) hs
            ∙ at?-put_at_other (index m.side (y, x)) i (filled value) m.cells h)
      | inr e ↦ rw e (write_places_kept bytes mask i l bit m hs)
    ]

-- What is set before stays.
pub write_places_set :
    (bytes : List ℕ) (mask i : ℕ) (b : Bool) (l : List (ℕ × ℕ)) (bit : ℕ) (m : Grid)
    → at? i m.cells ≡ some (filled b)
    → at? i (write_places bytes mask l bit m).cells ≡ some (filled b)
unfolding write_places set_module module_at
write_places_set bytes mask i b [] bit m h = h
write_places_set bytes mask i b ((y, x) ∷ l) bit m h =
    elim (Bool-cases (is_unset (module_at m y x))) [
      | inl e ↦
          let value = differ (data_bit bytes bit) (masked mask y x) in
          let other : index m.side (y, x) ≢ i =
            λ q. absurd (cc (e, ap (λ j. is_unset (get_or_else (at? j m.cells) unset)) q, h)) in
          rw e (
            write_places_set bytes mask i b l (suc bit) (set_module y x value m)
              (at?-put_at_other (index m.side (y, x)) i (filled value) m.cells other ∙ h))
      | inr e ↦ rw e (write_places_set bytes mask i b l bit m h)
    ]

pub side-write_places :
    (bytes : List ℕ) (mask : ℕ) (l : List (ℕ × ℕ)) (bit : ℕ) (m : Grid)
    → (write_places bytes mask l bit m).side ≡ m.side
unfolding write_places set_module
side-write_places bytes mask [] bit m = refl
side-write_places bytes mask ((y, x) ∷ l) bit m = elim (Bool-cases (is_unset (module_at m y x))) [
  | inl e ↦ rw e (
      side-write_places bytes mask l (suc bit)
        (set_module y x (differ (data_bit bytes bit) (masked mask y x)) m))
  | inr e ↦ rw e (side-write_places bytes mask l bit m)
]

-- A module that is set does not matter to the places that avoid it.
module _ (mask i : ℕ) (b : Module) where
  put : Grid → Grid
  put f = record { side = f.side; cells = put_at i b f.cells }

  module_at-put :
      (f : Grid) (p : ℕ × ℕ) → index f.side p ≢ i → module_at (put f) p.0 p.1 ≡ module_at f p.0 p.1
  unfolding module_at put
  module_at-put f (y, x) h =
      ap (λ t. get_or_else t unset)
        (at?-put_at_other i (index f.side (y, x)) b f.cells (λ e. h (sym e)))

  read_places-put :
      (f m : Grid) (l : List (ℕ × ℕ))
      → Avoids f.side i l
      → read_places (put f) m mask l ≡ read_places f m mask l
  unfolding read_places
  read_places-put f m [] h = refl
  read_places-put f m ((y, x) ∷ l) (h, hs) =
      rw (module_at-put f (y, x) h, read_places-put f m l hs) refl

  free_places-put :
      (f : Grid) (l : List (ℕ × ℕ)) → Avoids f.side i l → free_places (put f) l ≡ free_places f l
  unfolding free_places
  free_places-put f [] h = refl
  free_places-put f ((y, x) ∷ l) (h, hs) =
      rw (module_at-put f (y, x) h, free_places-put f l hs) refl

module _ (bytes : List ℕ) (mask y x : ℕ) (l : List (ℕ × ℕ)) (bit : ℕ) (m : Grid) where
  value : Bool
  value = differ (data_bit bytes bit) (masked mask y x)

  after : Grid
  after = set_module y x value m

  head_read :
      index m.side (y, x) < length m.cells
      → Avoids m.side (index m.side (y, x)) l
      → differ
          (is_dark (module_at (write_places bytes mask l (suc bit) after) y x))
          (masked mask y x)
        ≡ data_bit bytes bit
  unfolding after value module_at set_module
  head_read inside avoids =
      ap
        (λ s.
          differ
            (is_dark (
              get_or_else (at? (y * s + x) (write_places bytes mask l (suc bit) after).cells)
                unset))
            (masked mask y x))
        (side-write_places bytes mask l (suc bit) after)
      ∙ ap (λ t. differ (is_dark (get_or_else t unset)) (masked mask y x))
          (write_places_kept bytes mask (index m.side (y, x)) l (suc bit) after avoids
            ∙ at?-put_at_same (index m.side (y, x)) (filled value) m.cells inside)
      ∙ differ_twice (data_bit bytes bit) (masked mask y x)

  module _ (e : is_unset (module_at m y x) ≡ true) where
    write_free :
        write_places bytes mask ((y, x) ∷ l) bit m ≡ write_places bytes mask l (suc bit) after
    unfolding write_places after value
    write_free = rw e refl

    read_free :
        (w : Grid)
        → read_places m w mask ((y, x) ∷ l)
          ≡ differ (is_dark (module_at w y x)) (masked mask y x) ∷ read_places m w mask l
    unfolding read_places
    read_free w = rw e refl

    free_places_free : free_places m ((y, x) ∷ l) ≡ suc (free_places m l)
    unfolding free_places
    free_places_free = rw e refl

  module _ (e : is_unset (module_at m y x) ≡ false) where
    write_set : write_places bytes mask ((y, x) ∷ l) bit m ≡ write_places bytes mask l bit m
    unfolding write_places
    write_set = rw e refl

    read_set : (w : Grid) → read_places m w mask ((y, x) ∷ l) ≡ read_places m w mask l
    unfolding read_places
    read_set w = rw e refl

    free_places_set : free_places m ((y, x) ∷ l) ≡ free_places m l
    unfolding free_places
    free_places_set = rw e refl

  rest_read :
      (w : Grid)
      → Avoids m.side (index m.side (y, x)) l
      → read_places after w mask l ≡ data_bits bytes (free_places after l) (suc bit)
      → read_places m w mask l ≡ data_bits bytes (free_places m l) (suc bit)
  unfolding after set_module put
  rest_read w avoids h =
      let i = index m.side (y, x) in
      sym (read_places-put mask i (filled value) m w l avoids)
      ∙ h
      ∙ ap (λ n. data_bits bytes n (suc bit)) (free_places-put mask i (filled value) m l avoids)

  after_Apart : Apart m.side (length m.cells) l → Apart after.side (length after.cells) l
  unfolding after set_module
  after_Apart h =
      subst (λ n. Apart m.side n l)
        (sym (length-put_at (index m.side (y, x)) (filled value) m.cells)) h

-- Reading the places in the order of the writer gives the bits that it took, in their order.
pub read_places-write_places :
    (bytes : List ℕ) (mask : ℕ) (l : List (ℕ × ℕ)) (bit : ℕ) (m : Grid)
    → Apart m.side (length m.cells) l
    → read_places m (write_places bytes mask l bit m) mask l ≡ data_bits bytes (free_places m l) bit
unfolding Apart
read_places-write_places bytes mask [] bit m h = unfold read_places data_bits free_places in refl
read_places-write_places bytes mask ((y, x) ∷ l) bit m (inside, avoids, apart) =
    elim (Bool-cases (is_unset (module_at m y x))) [
      | inl e ↦
          let filled_in = after bytes mask y x l bit m in
          let w = write_places bytes mask l (suc bit) filled_in in
          let rest =
            read_places-write_places bytes mask l (suc bit) filled_in
              (after_Apart bytes mask y x l bit m apart) in
          ap (λ t. read_places m t mask ((y, x) ∷ l)) (write_free bytes mask y x l bit m e)
          ∙ read_free bytes mask y x l bit m e w
          ∙ ap (λ t. t ∷ read_places m w mask l) (head_read bytes mask y x l bit m inside avoids)
          ∙ ap (λ t. data_bit bytes bit ∷ t) (rest_read bytes mask y x l bit m w avoids rest)
          ∙ taken bytes (free_places m l) bit
          ∙ ap (λ n. data_bits bytes n bit) (sym (free_places_free bytes mask y x l bit m e))
      | inr e ↦
          let w = write_places bytes mask l bit m in
          ap (λ t. read_places m t mask ((y, x) ∷ l)) (write_set bytes mask y x l bit m e)
          ∙ read_set bytes mask y x l bit m e w
          ∙ read_places-write_places bytes mask l bit m apart
          ∙ ap (λ n. data_bits bytes n bit) (sym (free_places_set bytes mask y x l bit m e))
    ]
