-- ===== src/Web/Qr/Roots.antt =====
-- web/src/lib/qr.ts, `generator` and `korekcja`: a block with its correction bytes as a polynomial
-- over GF(256), and its value at the roots of the generator.
use mekamb_chat.Common.{ℕ, zero, suc, ◌+◌, ◌≤◌, ◌<◌, ◌≡◌, refl, sym, ap, ◌∙◌, arith}
use mekamb_chat.Common.{List, [], ◌∷◌, length, All, ◌==◌, Bool-cases, ==_iff}
use mekamb_chat.Common.{inl, inr}
use mekamb_chat.Common.Bits.{bit_xor_self, bit_xor_comm, bit_xor_assoc, bit_xor-zero, bit_xor_below}
use mekamb_chat.Web.Qr.Field.{exp, times}
use mekamb_chat.Web.Qr.FieldLaws.{
  exp-le, times_comm, times_distrib, times_assoc, times_byte, times-zero, zero-times,
}
use mekamb_chat.Web.Qr.Correction.{widen, generator, subtract}
use Prim.Native.Nat.{bit_xor}

abbrev pub IsByte : ℕ → Type 0
IsByte a = a < 256

-- Horner's scheme: the value at a of the polynomial with these coefficients, highest first, on top
-- of what was read before.
unfoldable pub value_from : ℕ → List ℕ → ℕ → ℕ
value_from a [] s = s
value_from a (c ∷ cs) s = value_from a cs (bit_xor (times s a) c)

pub xor_byte : (a b : ℕ) → IsByte a → IsByte b → IsByte (bit_xor a b)
xor_byte a b p q = bit_xor_below 8 a b p q

pub distrib_right :
    (a b c : ℕ)
    → IsByte a
    → IsByte b
    → IsByte c
    → times (bit_xor a b) c ≡ bit_xor (times a c) (times b c)
distrib_right a b c p q r =
    times_comm (bit_xor a b) c
    ∙ times_distrib c a b r p q
    ∙ ap (λ t. bit_xor t (times c b)) (times_comm c a)
    ∙ ap (λ t. bit_xor (times a c) t) (times_comm c b)

-- Exclusive or of four, regrouped.
pub swap_middle :
    (a b c d : ℕ) → bit_xor (bit_xor a b) (bit_xor c d) ≡ bit_xor (bit_xor a c) (bit_xor b d)
swap_middle a b c d =
    bit_xor_assoc a b (bit_xor c d)
    ∙ ap (λ t. bit_xor a t)
        (sym (bit_xor_assoc b c d) ∙ ap (λ t. bit_xor t d) (bit_xor_comm b c) ∙ bit_xor_assoc c b d)
    ∙ sym (bit_xor_assoc a c (bit_xor b d))

pub next_byte : (a s c : ℕ) → IsByte a → IsByte s → IsByte c → IsByte (bit_xor (times s a) c)
next_byte a s c p q r = xor_byte (times s a) c (times_byte s a q p) r

module _ (a : ℕ) (pa : IsByte a) where
  -- The division's round: what is subtracted has the value of a multiple of the divisor.
  pub value-subtract :
      (gs rs : List ℕ) (c s t : ℕ)
      → All IsByte gs
      → All IsByte rs
      → IsByte c
      → IsByte s
      → IsByte t
      → length gs ≤ length rs
      → value_from a gs t ≡ 0
      → value_from a (subtract c gs rs) (bit_xor s (times t c)) ≡ value_from a rs s
  unfolding value_from subtract
  value-subtract [] rs c s t hg hr hc hs ht le z =
      ap (λ x. value_from a rs (bit_xor s (times x c))) z
      ∙ ap (λ x. value_from a rs (bit_xor s x)) (zero-times c)
      ∙ ap (λ x. value_from a rs x) (bit_xor-zero s)
  value-subtract (g ∷ gs) [] c s t hg hr hc hs ht le z = absurd (omega arith)
  value-subtract (g ∷ gs) (r ∷ rs) c s t (hg, hgs) (hr, hrs) hc hs ht le z =
      ap (λ x. value_from a (subtract c gs rs) x) regrouped
      ∙ value-subtract gs rs c (bit_xor (times s a) r) (bit_xor (times t a) g) hgs hrs hc
          (next_byte a s r pa hs hr) (next_byte a t g pa ht hg) (omega arith) z
    where
      ta_c : times (times t c) a ≡ times (times t a) c
      ta_c =
          sym (times_assoc t c a ht hc pa)
          ∙ ap (λ x. times t x) (times_comm c a)
          ∙ times_assoc t a c ht pa hc

      regrouped :
          bit_xor (times (bit_xor s (times t c)) a) (bit_xor r (times g c))
          ≡ bit_xor (bit_xor (times s a) r) (times (bit_xor (times t a) g) c)
      regrouped =
          ap (λ x. bit_xor x (bit_xor r (times g c)))
            (distrib_right s (times t c) a hs (times_byte t c ht hc) pa)
          ∙ ap (λ x. bit_xor (bit_xor (times s a) x) (bit_xor r (times g c))) ta_c
          ∙ swap_middle (times s a) (times (times t a) c) r (times g c)
          ∙ ap (λ x. bit_xor (bit_xor (times s a) r) x)
              (sym (distrib_right (times t a) g c (times_byte t a ht pa) hg hc))

  -- A round of the generator multiplies by x + e.
  pub value-widen :
      (e c : ℕ) (ws : List ℕ) (s t : ℕ)
      → IsByte e
      → IsByte c
      → All IsByte ws
      → IsByte s
      → IsByte t
      → bit_xor (times t a) c ≡ times s (bit_xor a e)
      → value_from a (widen e c ws) t ≡ times (value_from a ws s) (bit_xor a e)
  unfolding value_from widen
  value-widen e c [] s t he hc hw hs ht h = h
  value-widen e c (w ∷ ws) s t he hc (hw, hws) hs ht h =
      value-widen e (bit_xor 0 (times w e)) ws (bit_xor (times s a) w)
        (bit_xor (times t a) (bit_xor c w)) he
        (xor_byte 0 (times w e) (omega arith) (times_byte w e hw he)) hws (next_byte a s w pa hs hw)
        (next_byte a t (bit_xor c w) pa ht (xor_byte c w hc hw)) carried
    where
      swap_factors : times (times s e) a ≡ times (times s a) e
      swap_factors =
          sym (times_assoc s e a hs he pa)
          ∙ ap (λ x. times s x) (times_comm e a)
          ∙ times_assoc s a e hs pa he

      prefix : bit_xor (times t a) (bit_xor c w) ≡ bit_xor (bit_xor (times s a) w) (times s e)
      prefix =
          sym (bit_xor_assoc (times t a) c w)
          ∙ ap (λ x. bit_xor x w) (h ∙ times_distrib s a e hs pa he)
          ∙ bit_xor_assoc (times s a) (times s e) w
          ∙ ap (λ x. bit_xor (times s a) x) (bit_xor_comm (times s e) w)
          ∙ sym (bit_xor_assoc (times s a) w (times s e))

      carried :
          bit_xor (times (bit_xor (times t a) (bit_xor c w)) a) (bit_xor 0 (times w e))
          ≡ times (bit_xor (times s a) w) (bit_xor a e)
      carried =
          ap (λ x. bit_xor (times x a) (bit_xor 0 (times w e))) prefix
          ∙ ap (λ x. bit_xor x (bit_xor 0 (times w e)))
              (distrib_right _ (times s e) a (next_byte a s w pa hs hw) (times_byte s e hs he) pa)
          ∙ ap (λ x. bit_xor (bit_xor (times (bit_xor (times s a) w) a) (times (times s e) a)) x)
              (bit_xor_comm 0 (times w e) ∙ bit_xor-zero (times w e))
          ∙ bit_xor_assoc (times (bit_xor (times s a) w) a) (times (times s e) a) (times w e)
          ∙ ap (λ x. bit_xor (times (bit_xor (times s a) w) a) (bit_xor x (times w e))) swap_factors
          ∙ ap (λ x. bit_xor (times (bit_xor (times s a) w) a) x)
              (sym (distrib_right (times s a) w e (times_byte s a hs pa) hw he))
          ∙ sym (times_distrib (bit_xor (times s a) w) a e (next_byte a s w pa hs hw) pa he)

-- The generator: its bytes, its length, its first coefficient and its roots.
widen-IsByte :
    (e c : ℕ) (ws : List ℕ) → IsByte e → IsByte c → All IsByte ws → All IsByte (widen e c ws)
unfolding widen
widen-IsByte e c [] he hc hw = (hc, tt)
widen-IsByte e c (w ∷ ws) he hc (hw, hws) = (
  xor_byte c w hc hw,
  widen-IsByte e (bit_xor 0 (times w e)) ws he
      (xor_byte 0 (times w e) (omega arith) (times_byte w e hw he)) hws,
)

length-widen : (e c : ℕ) (ws : List ℕ) → length (widen e c ws) ≡ length ws + 1
unfolding widen
length-widen e c [] = omega arith
length-widen e c (w ∷ ws) = omega (arith, length-widen e (bit_xor 0 (times w e)) ws)

pub generator-IsByte : (n : ℕ) → n ≤ 255 → All IsByte (generator n)
unfolding generator
generator-IsByte zero h = (omega arith, tt)
generator-IsByte (suc n) h =
    widen-IsByte (exp n) 0 (generator n) (exp-le n h) (omega arith)
      (generator-IsByte n (omega arith))

pub length-generator : (n : ℕ) → length (generator n) ≡ n + 1
unfolding generator
length-generator zero = omega arith
length-generator (suc n) = omega (arith, length-widen (exp n) 0 (generator n), length-generator n)

value_next_step :
    (a n : ℕ)
    → IsByte a
    → n < 255
    → value_from a (generator (suc n)) 0 ≡ times (value_from a (generator n) 0) (bit_xor a (exp n))
unfolding generator
value_next_step a n pa h =
    value-widen a pa (exp n) 0 (generator n) 0 0 (exp-le n h) (omega arith)
      (generator-IsByte n (omega arith)) (omega arith) (omega arith)
      (rw (zero-times, zero-times) refl)

-- Each of the powers that the generator was built from is a root of it.
pub value-generator : (n i : ℕ) → n ≤ 255 → i < n → value_from (exp i) (generator n) 0 ≡ 0
value-generator zero i h lt = absurd (omega arith)
value-generator (suc n) i h lt = elim (Bool-cases (i == n)) [
  | inl e ↦
      value_next_step (exp i) n (exp-le i (omega arith)) h
      ∙ ap (λ t. times (value_from (exp i) (generator n) 0) (bit_xor (exp i) (exp t)))
          (sym ((==_iff i n).0 e))
      ∙ ap (λ t. times (value_from (exp i) (generator n) 0) t) (bit_xor_self (exp i))
      ∙ times-zero (value_from (exp i) (generator n) 0)
  | inr e ↦
      value_next_step (exp i) n (exp-le i (omega arith)) h
      ∙ ap (λ t. times t (bit_xor (exp i) (exp n)))
          (value-generator n i (omega arith) (ground arith))
      ∙ zero-times (bit_xor (exp i) (exp n))
]
