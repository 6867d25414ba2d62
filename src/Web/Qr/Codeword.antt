-- ===== src/Web/Qr/Codeword.antt =====
-- web/src/lib/qr.ts, `korekcja`: what the division leaves, and the codeword of a block.
use mekamb_chat.Common.{ℕ, zero, suc, ◌+◌, ◌≤◌, ◌<◌, ◌≡◌, refl, sym, ap, subst, ◌∙◌, arith}
use mekamb_chat.Common.{
  List, [], ◌∷◌, ◌++◌, length, drop, All, All-append, length-append, length-drop,
}
use mekamb_chat.Common.{if◌then◌else◌, ◌==◌, Bool-cases, ==_iff, inl, inr}
use mekamb_chat.Common.Arrays.{zeros}
use mekamb_chat.Common.Bits.{bit_xor_comm, bit_xor_self, bit_xor-zero}
use mekamb_chat.Web.Qr.Field.{exp, times}
use mekamb_chat.Web.Qr.FieldLaws.{one-times, exp-le, times_byte, zero-times}
use mekamb_chat.Web.Qr.Correction.{generator, widen, subtract, cleared, reduce, correction}
use mekamb_chat.Web.Qr.Roots.{
  IsByte, value_from, xor_byte, swap_middle, distrib_right, value-subtract,
}
use mekamb_chat.Web.Qr.Roots.{generator-IsByte, length-generator, value-generator, next_byte}
use Prim.Native.Nat.{bit_xor}

module _ (a : ℕ) where
  value-append :
      (xs ys : List ℕ) (s : ℕ) → value_from a (xs ++ ys) s ≡ value_from a ys (value_from a xs s)
  unfolding value_from
  value-append [] ys s = refl
  value-append (x ∷ xs) ys s = value-append xs ys (bit_xor (times s a) x)

  value-byte :
      IsByte a → (xs : List ℕ) (s : ℕ) → All IsByte xs → IsByte s → IsByte (value_from a xs s)
  unfolding value_from
  value-byte pa [] s h hs = hs
  value-byte pa (x ∷ xs) s (hx, h) hs =
      value-byte pa xs (bit_xor (times s a) x) h (next_byte a s x pa hs hx)

  -- The value splits in what was read before and the list's own value.
  value-split :
      IsByte a
      → (q : List ℕ) (s t : ℕ) → All IsByte q
      → IsByte s
      → IsByte t
      → value_from a q (bit_xor s t)
        ≡ bit_xor (value_from a (zeros (length q)) s) (value_from a q t)
  unfolding value_from
  value-split pa [] s t h hs ht = refl
  value-split pa (c ∷ q) s t (hc, h) hs ht =
      ap (λ x. value_from a q x) (ap (λ x. bit_xor x c) (distrib_right s t a hs ht pa) ∙ regrouped)
      ∙ value-split pa q (bit_xor (times s a) 0) (bit_xor (times t a) c) h
          (next_byte a s 0 pa hs (omega arith)) (next_byte a t c pa ht hc)
    where
      zero_xor : (x : ℕ) → bit_xor 0 x ≡ x
      zero_xor x = bit_xor_comm 0 x ∙ bit_xor-zero x

      regrouped :
          bit_xor (bit_xor (times s a) (times t a)) c
          ≡ bit_xor (bit_xor (times s a) 0) (bit_xor (times t a) c)
      regrouped =
          ap (λ x. bit_xor (bit_xor (times s a) (times t a)) x) (sym (zero_xor c))
          ∙ swap_middle (times s a) (times t a) 0 c

  value-zero_first : (xs : List ℕ) → value_from a (0 ∷ xs) 0 ≡ value_from a xs 0
  unfolding value_from
  value-zero_first xs = ap (λ x. value_from a xs (bit_xor x 0)) (zero-times a)

subtract-IsByte :
    (c : ℕ) (gs rs : List ℕ)
    → IsByte c
    → All IsByte gs
    → All IsByte rs
    → All IsByte (subtract c gs rs)
unfolding subtract
subtract-IsByte c [] rs hc hg hr = hr
subtract-IsByte c (g ∷ gs) [] hc hg hr = tt
subtract-IsByte c (g ∷ gs) (r ∷ rs) hc (hg, hgs) (hr, hrs) =
    (xor_byte r (times g c) hr (times_byte g c hg hc), subtract-IsByte c gs rs hc hgs hrs)

length-subtract : (c : ℕ) (gs rs : List ℕ) → length (subtract c gs rs) ≡ length rs
unfolding subtract
length-subtract c [] rs = refl
length-subtract c (g ∷ gs) [] = refl
length-subtract c (g ∷ gs) (r ∷ rs) = omega (arith, length-subtract c gs rs)

-- The round of a division by a polynomial with first coefficient 1.
module _ (gs : List ℕ) (hg : All IsByte gs) where
  cleared_tail : ℕ → List ℕ → List ℕ
  cleared_tail c rs = if c == 0 then rs else subtract c gs rs

  cleared_lem : (c : ℕ) (rs : List ℕ) → IsByte c → cleared (1 ∷ gs) c rs ≡ 0 ∷ cleared_tail c rs
  unfolding cleared subtract cleared_tail
  cleared_lem c rs hc = elim (Bool-cases (c == 0)) [
    | inl e ↦ rw e (ap (λ t. t ∷ rs) ((==_iff c 0).0 e))
    | inr e ↦
        rw e
          (ap (λ t. t ∷ subtract c gs rs) (ap (λ t. bit_xor c t) (one-times c hc) ∙ bit_xor_self c))
  ]

  cleared_tail-IsByte :
      (c : ℕ) (rs : List ℕ) → IsByte c → All IsByte rs → All IsByte (cleared_tail c rs)
  unfolding cleared_tail
  cleared_tail-IsByte c rs hc hr = elim (Bool-cases (c == 0)) [
    | inl e ↦ rw e hr
    | inr e ↦ rw e (subtract-IsByte c gs rs hc hg hr)
  ]

  length-cleared_tail : (c : ℕ) (rs : List ℕ) → length (cleared_tail c rs) ≡ length rs
  unfolding cleared_tail
  length-cleared_tail c rs = ground (arith, length-subtract c gs rs)

  reduce_step :
      (n c : ℕ) (rs : List ℕ)
      → IsByte c
      → reduce (1 ∷ gs) (suc n) (c ∷ rs) ≡ 0 ∷ reduce (1 ∷ gs) n (cleared_tail c rs)
  unfolding reduce
  reduce_step n c rs hc = rw (cleared_lem c rs hc) refl

  module _ (a : ℕ) (pa : IsByte a) (root : value_from a (1 ∷ gs) 0 ≡ 0) where
    value-cleared :
        (c : ℕ) (rs : List ℕ)
        → IsByte c
        → All IsByte rs
        → length gs ≤ length rs
        → value_from a (cleared (1 ∷ gs) c rs) 0 ≡ value_from a (c ∷ rs) 0
    unfolding cleared
    value-cleared c rs hc hr le = elim (Bool-cases (c == 0)) [
      | inl e ↦ rw e refl
      | inr e ↦ rw e (
          ap (λ x. value_from a (subtract c (1 ∷ gs) (c ∷ rs)) (bit_xor 0 x)) (sym (zero-times c))
          ∙ value-subtract a pa (1 ∷ gs) (c ∷ rs) c 0 0 (omega arith, hg) (hc, hr) hc (omega arith)
              (omega arith) (omega arith) root)
    ]

    -- Dropping the rounds' zeros leaves a list of the same value.
    value-reduce :
        (n : ℕ) (rs : List ℕ)
        → All IsByte rs
        → n + length gs ≤ length rs
        → value_from a (drop n (reduce (1 ∷ gs) n rs)) 0 ≡ value_from a rs 0
    value-reduce zero rs hr le = unfold reduce in refl
    value-reduce (suc n) [] hr le = absurd (omega arith)
    value-reduce (suc n) (c ∷ rs) (hc, hr) le =
        ap (λ l. value_from a (drop (suc n) l) 0) (reduce_step n c rs hc)
        ∙ value-reduce n (cleared_tail c rs) (cleared_tail-IsByte c rs hc hr)
            (omega (arith, length-cleared_tail c rs))
        ∙ sym (value-zero_first a (cleared_tail c rs))
        ∙ ap (λ l. value_from a l 0) (sym (cleared_lem c rs hc))
        ∙ value-cleared c rs hc hr (omega arith)

  reduce-IsByte : (n : ℕ) (rs : List ℕ) → All IsByte rs → All IsByte (reduce (1 ∷ gs) n rs)
  reduce-IsByte zero rs hr = unfold reduce in hr
  reduce-IsByte (suc n) [] hr = unfold reduce in tt
  reduce-IsByte (suc n) (c ∷ rs) (hc, hr) =
      rw (reduce_step n c rs hc)
        (omega arith, reduce-IsByte n (cleared_tail c rs) (cleared_tail-IsByte c rs hc hr))

  length-reduce : (n : ℕ) (rs : List ℕ) → All IsByte rs → length (reduce (1 ∷ gs) n rs) ≡ length rs
  length-reduce zero rs hr = unfold reduce in refl
  length-reduce (suc n) [] hr = unfold reduce in refl
  length-reduce (suc n) (c ∷ rs) (hc, hr) = rw (reduce_step n c rs hc) (
      omega (
        arith,
        length-reduce n (cleared_tail c rs) (cleared_tail-IsByte c rs hc hr),
        length-cleared_tail c rs,
      ))

generator_monic : (n : ℕ) → (gs : List ℕ) × (generator n ≡ 1 ∷ gs)
unfolding generator widen
generator_monic zero = ([], refl)
generator_monic (suc n) =
    let (gs, e) = generator_monic n in
    (widen (exp n) (bit_xor 0 (times 1 (exp n))) gs, ap (λ g. widen (exp n) 0 g) e)

length-zeros : (n : ℕ) → length (zeros n) ≡ n
length-zeros zero = refl
length-zeros (suc n) = ap suc (length-zeros n)

zeros-IsByte : (n : ℕ) → All IsByte (zeros n)
zeros-IsByte zero = tt
zeros-IsByte (suc n) = (omega arith, zeros-IsByte n)

All-drop : (n : ℕ) (xs : List ℕ) → All IsByte xs → All IsByte (drop n xs)
All-drop zero xs h = h
All-drop (suc n) [] h = h
All-drop (suc n) (x ∷ xs) h = All-drop n xs h.1

module _ (block : List ℕ) (ec : ℕ) (small : ec ≤ 255) (bytes : All IsByte block) where
  division_IsByte : All IsByte (block ++ zeros ec)
  division_IsByte = All-append IsByte block (zeros ec) bytes (zeros-IsByte ec)

  correction_shape : (length (correction block ec) ≡ ec) × All IsByte (correction block ec)
  unfolding correction
  correction_shape =
      let (gs, e) = generator_monic ec in
      let hgs : All IsByte gs = (subst (All IsByte) e (generator-IsByte ec small)).1 in
      rw e (
        omega (
          arith,
          length-drop (length block) (reduce (1 ∷ gs) (length block) (block ++ zeros ec)),
          length-reduce gs hgs (length block) (block ++ zeros ec) division_IsByte,
          length-append block (zeros ec),
          length-zeros ec,
        ),
        All-drop (length block) _
            (reduce-IsByte gs hgs (length block) (block ++ zeros ec) division_IsByte),
      )

  value-correction :
      (i : ℕ)
      → i < ec
      → value_from (exp i) (correction block ec) 0 ≡ value_from (exp i) (block ++ zeros ec) 0
  unfolding correction
  value-correction i lt =
      let (gs, e) = generator_monic ec in
      let hgs : All IsByte gs = (subst (All IsByte) e (generator-IsByte ec small)).1 in
      let root : value_from (exp i) (1 ∷ gs) 0 ≡ 0 =
        ap (λ g. value_from (exp i) g 0) (sym e) ∙ value-generator ec i small lt in
      rw e (
        value-reduce gs hgs (exp i) (exp-le i (omega arith)) root (length block) (block ++ zeros ec)
          division_IsByte
          (omega (
            arith,
            length-append block (zeros ec),
            length-zeros ec,
            ap length e,
            length-generator ec,
          )))

  codeword_root : (i : ℕ) → i < ec → value_from (exp i) (block ++ correction block ec) 0 ≡ 0
  codeword_root i lt =
      let a : ℕ = exp i in
      let pa = exp-le i (omega arith) in
      let s : ℕ = value_from a block 0 in
      let hs = value-byte a pa block 0 bytes (omega arith) in
      value-append a block (correction block ec) 0
      ∙ ap (λ x. value_from a (correction block ec) x) (sym (bit_xor-zero s))
      ∙ value-split a pa (correction block ec) s 0 correction_shape.1 hs (omega arith)
      ∙ ap (λ x. bit_xor (value_from a (zeros x) s) (value_from a (correction block ec) 0))
          correction_shape.0
      ∙ ap (λ x. bit_xor (value_from a (zeros ec) s) x)
          (value-correction i lt ∙ value-append a block (zeros ec) 0)
      ∙ bit_xor_self (value_from a (zeros ec) s)

-- For a block of bytes and at most 255 correction bytes, `korekcja` returns as many bytes as asked
-- for, each below 256, and the block followed by them, read as a polynomial over GF(256), vanishes
-- at each of the first powers EXP[0], EXP[1], … of that number: it is a Reed–Solomon codeword.
pub correction_codeword :
    (block : List ℕ) (ec : ℕ)
    → ec ≤ 255
    → All IsByte block
    → (length (correction block ec) ≡ ec)
      × All IsByte (correction block ec)
      × ((i : ℕ) → i < ec → value_from (exp i) (block ++ correction block ec) 0 ≡ 0)
correction_codeword block ec small bytes =
    let (len, all) = correction_shape block ec small bytes in
    (len, all, codeword_root block ec small bytes)
