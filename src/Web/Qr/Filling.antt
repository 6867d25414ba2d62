-- ===== src/Web/Qr/Filling.antt =====
-- web/src/lib/qr.ts, `ulozDane`: the lengths of the stream's parts, and the bits of its bytes.
use mekamb_chat.Common.{ℕ, zero, suc, ◌-◌, ◌*◌, ◌/◌, ◌%◌, ◌==◌}
use mekamb_chat.Common.{
  ◌≡◌, refl, sym, ap, subst, ◌∙◌, ◌≤◌, ◌<◌, arith, length, length-append, All, All-append,
}
use mekamb_chat.Common.{false, List, [], ◌∷◌, ◌++◌, Bool-cases, ==_iff, inl, inr}
use mathlib.Core.List.{append-nil, append_assoc}
use mekamb_chat.Web.Qr.Stream.{to_bits, bits_of, aligned, to_number, to_bytes}
use mekamb_chat.Web.Qr.Stream.{filling, first_bytes}

abbrev pub IsBit : ℕ → Type 0
IsBit b = b < 2

pub to_bits-IsBit : (n v : ℕ) → All IsBit (to_bits n v)
unfolding to_bits
to_bits-IsBit zero v = tt
to_bits-IsBit (suc n) v = (omega arith, to_bits-IsBit n v)

pub length-to_bits : (n v : ℕ) → length (to_bits n v) ≡ n
unfolding to_bits
length-to_bits zero v = refl
length-to_bits (suc n) v = omega (arith, length-to_bits n v)

pub bits_of-IsBit : (bs : List ℕ) → All IsBit (bits_of bs)
unfolding bits_of
bits_of-IsBit [] = tt
bits_of-IsBit (b ∷ bs) =
    All-append IsBit (to_bits 8 b) (bits_of bs) (to_bits-IsBit 8 b) (bits_of-IsBit bs)

pub length-bits_of : (bs : List ℕ) → length (bits_of bs) ≡ length bs * 8
unfolding bits_of
length-bits_of [] = refl
length-bits_of (b ∷ bs) =
    omega (arith, length-append (to_bits 8 b) (bits_of bs), length-to_bits 8 b, length-bits_of bs)

pub bits_of-append : (xs ys : List ℕ) → bits_of (xs ++ ys) ≡ bits_of xs ++ bits_of ys
unfolding bits_of
bits_of-append [] ys = refl
bits_of-append (x ∷ xs) ys =
    ap (λ l. to_bits 8 x ++ l) (bits_of-append xs ys)
    ∙ sym (append_assoc (to_bits 8 x) (bits_of xs) (bits_of ys))

module _ (a b c d e f g h : ℕ) (low : All IsBit (a ∷ b ∷ c ∷ d ∷ e ∷ f ∷ g ∷ h ∷ [])) where
  byte_bits :
      to_bits 8 (to_number 0 (a ∷ b ∷ c ∷ d ∷ e ∷ f ∷ g ∷ h ∷ []))
      ≡ a ∷ b ∷ c ∷ d ∷ e ∷ f ∷ g ∷ h ∷ []
  unfolding to_bits to_number
  byte_bits = ground arith

-- Reading the bits of the bytes gives the bits that they were made of.
pub bits_of-to_bytes :
    (bits : List ℕ) → All IsBit bits → length bits % 8 ≡ 0 → bits_of (to_bytes bits) ≡ bits
unfolding to_bytes bits_of
bits_of-to_bytes [] low h = refl
bits_of-to_bytes (a ∷ b ∷ c ∷ d ∷ e ∷ f ∷ g ∷ i ∷ rest)
      (la, (lb, (lc, (ld, (le, (lf, (lg, (li, low)))))))) h =
    rw (byte_bits a b c d e f g i (la, (lb, (lc, (ld, (le, (lf, (lg, (li, tt)))))))))
      (ap (λ l. a ∷ b ∷ c ∷ d ∷ e ∷ f ∷ g ∷ i ∷ l) (bits_of-to_bytes rest low (omega arith)))
bits_of-to_bytes _ low h = absurd (cc h)

pub to_bytes-IsByte : (bits : List ℕ) → All IsBit bits → All (λ b. b < 256) (to_bytes bits)
unfolding to_bytes to_number
to_bytes-IsByte (a ∷ b ∷ c ∷ d ∷ e ∷ f ∷ g ∷ i ∷ rest)
      (la, (lb, (lc, (ld, (le, (lf, (lg, (li, low)))))))) =
    (omega arith, to_bytes-IsByte rest low)
to_bytes-IsByte _ low = tt

pub filling-IsByte : (k i : ℕ) → All (λ b. b < 256) (filling k i)
unfolding filling
filling-IsByte zero i = tt
filling-IsByte (suc k) i = (ground arith, filling-IsByte k (suc i))

pub length-to_bytes : (bits : List ℕ) → length (to_bytes bits) ≡ length bits / 8
unfolding to_bytes
length-to_bytes (a ∷ b ∷ c ∷ d ∷ e ∷ f ∷ g ∷ i ∷ rest) = omega (arith, length-to_bytes rest)
length-to_bytes _ = refl

pub length-filling : (k i : ℕ) → length (filling k i) ≡ k
unfolding filling
length-filling zero i = refl
length-filling (suc k) i = omega (arith, length-filling k (suc i))

pub first_bytes_all : (room : ℕ) (l : List ℕ) → length l ≤ room → first_bytes room l ≡ l
unfolding first_bytes
first_bytes_all zero [] h = refl
first_bytes_all zero (b ∷ l) h = absurd (omega arith)
first_bytes_all (suc room) [] h = refl
first_bytes_all (suc room) (b ∷ l) h = ap (λ t. b ∷ t) (first_bytes_all room l (omega arith))

-- What the loop that fills up a byte adds.
pub record Aligned (k room : ℕ) (bits : List ℕ) : Type 0 where
  pub tail : List ℕ
  pub whole : aligned k bits ≡ bits ++ tail
  pub low : All IsBit tail
  pub full : length (bits ++ tail) % 8 ≡ 0
  pub fits : length (bits ++ tail) ≤ room * 8

-- Seven rounds fill up any byte, and stay within whole bytes.
pub aligned_lem :
    (k room : ℕ) (bits : List ℕ)
    → length bits ≤ room * 8
    → (8 - length bits % 8) % 8 ≤ k
    → Aligned k room bits
unfolding aligned
aligned_lem zero room bits fits enough = record {
  tail = [];
  whole = sym (append-nil bits);
  low = tt;
  full = rw append-nil (omega arith);
  fits = rw append-nil fits;
}
aligned_lem (suc k) room bits fits enough = elim (Bool-cases (length bits % 8 == 0)) [
  | inl e ↦ record {
    tail = [];
    whole = rw (e, append-nil) refl;
    low = tt;
    full = rw append-nil ((==_iff _ 0).0 e);
    fits = rw append-nil fits;
  }
  | inr e ↦
      one_more
        (aligned_lem k room (bits ++ (0 ∷ [])) (ground (arith, length-append bits (0 ∷ [])))
          (ground (arith, length-append bits (0 ∷ []))))
        e
]
  where
    one_more :
        Aligned k room (bits ++ (0 ∷ []))
        → (length bits % 8 == 0) ≡ false
        → Aligned (suc k) room bits
    one_more r e = record {
      tail = 0 ∷ r.tail;
      whole = rw e (r.whole ∙ append_assoc bits (0 ∷ []) r.tail);
      low = (omega arith, r.low);
      full = subst (λ l. length l % 8 ≡ 0) (append_assoc bits (0 ∷ []) r.tail) r.full;
      fits = subst (λ l. length l ≤ room * 8) (append_assoc bits (0 ∷ []) r.tail) r.fits;
    }
