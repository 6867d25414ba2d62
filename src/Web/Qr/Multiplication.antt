-- ===== src/Web/Qr/Multiplication.antt =====
-- web/src/lib/qr.ts, `mnoz`: multiplication through the tables EXP and LOG against multiplication
-- written out by shifts and exclusive or.
use mekamb_chat.Common.{ℕ, zero, suc, ◌*◌, ◌/◌, ◌%◌, ◌^◌, ◌<◌, ◌≡◌, refl, sym, ap, ◌∙◌, arith}
use mekamb_chat.Common.{false, if◌then◌else◌, ◌==◌, Bool-cases, ==_iff, inl, inr}
use mekamb_chat.Common.Bits.{bit_xor-zero, bit_xor_comm, bit_xor_step}
use mekamb_chat.Web.Qr.Field.{doubled, times}
use mekamb_chat.Web.Qr.FieldLaws.{
  times_comm, times_distrib, doubled-times, doubled_byte, one-times, zero-times,
}
use native.Mathlib.Nat.{pow-suc}
use Prim.Native.Nat.{bit_xor}

-- The product of two polynomials over GF(2), the bits of a and b their coefficients, modulo 0x11d:
-- for each of the lowest n bits of a that is set, b times that power of 2.
unfoldable pub shift_and_add : ℕ → ℕ → ℕ → ℕ
shift_and_add zero a b = 0
shift_and_add (suc n) a b =
    bit_xor (if a % 2 == 1 then b else 0) (shift_and_add n (a / 2) (doubled b))

below_half : (h : ℕ) → h < 128 → doubled h ≡ h * 2
unfolding doubled
below_half h lt = ground arith

lowest_bit : (a : ℕ) → a ≡ bit_xor (a % 2) (a / 2 * 2)
lowest_bit a = omega (
  arith,
  bit_xor_step (a % 2) (a / 2 * 2),
  zero_xor (a / 2),
  ap (λ (t : ℕ). bit_xor t (a / 2 * 2 / 2)) (half_bit a),
  ap (λ (t : ℕ). bit_xor 0 t) (half_double a),
)
  where
    zero_xor : (x : ℕ) → bit_xor 0 x ≡ x
    zero_xor x = bit_xor_comm 0 x ∙ bit_xor-zero x

    half_bit : (x : ℕ) → x % 2 / 2 ≡ 0
    half_bit x = omega arith

    half_double : (x : ℕ) → x / 2 * 2 / 2 ≡ x / 2
    half_double x = omega arith

bit-times : (a b : ℕ) → b < 256 → times (a % 2) b ≡ (if a % 2 == 1 then b else 0)
bit-times a b hb = elim (Bool-cases (a % 2 == 1)) [
  | inl e ↦ rw e (ap (λ t. times t b) ((==_iff (a % 2) 1).0 e) ∙ one-times b hb)
  | inr e ↦ rw e (ap (λ t. times t b) (even_bit a e) ∙ zero-times b)
]
  where
    even_bit : (x : ℕ) → (x % 2 == 1) ≡ false → x % 2 ≡ 0
    even_bit x e = ground arith

-- A factor moves its lowest bit out, and hands a doubling to the other factor.
split-times :
    (a b : ℕ)
    → a < 256
    → b < 256
    → times a b ≡ bit_xor (if a % 2 == 1 then b else 0) (times (a / 2) (doubled b))
split-times a b ha hb =
    times_comm a b
    ∙ ap (λ t. times b t) (lowest_bit a)
    ∙ times_distrib b (a % 2) (a / 2 * 2) hb (omega arith) (omega arith)
    ∙ ap (λ t. bit_xor t (times b (a / 2 * 2))) (times_comm b (a % 2) ∙ bit-times a b hb)
    ∙ ap (λ t. bit_xor (if a % 2 == 1 then b else 0) t) handed
  where
    handed : times b (a / 2 * 2) ≡ times (a / 2) (doubled b)
    handed =
        times_comm b (a / 2 * 2)
        ∙ ap (λ t. times t b) (sym (below_half (a / 2) (omega arith)))
        ∙ doubled-times (a / 2) b (omega arith) hb
        ∙ ap doubled (times_comm (a / 2) b)
        ∙ sym (doubled-times b (a / 2) hb (omega arith))
        ∙ times_comm (doubled b) (a / 2)

times-shift_and_add_bits :
    (n a b : ℕ) → a < 256 → a < 2 ^ n → b < 256 → times a b ≡ shift_and_add n a b
times-shift_and_add_bits zero a b small ha hb =
    ap (λ t. times t b) (none_left a ha) ∙ zero-times b ∙ unfold shift_and_add in refl
  where
    none_left : (x : ℕ) → x < 2 ^ 0 → x ≡ 0
    none_left x h = omega arith
times-shift_and_add_bits (suc n) a b small ha hb =
    split-times a b small hb
    ∙ ap (λ t. bit_xor (if a % 2 == 1 then b else 0) t)
        (times-shift_and_add_bits n (a / 2) (doubled b) (omega arith) (omega (arith, pow-suc 2 n))
          (doubled_byte b hb))
    ∙ unfold shift_and_add in refl

-- On bytes, `mnoz` through its tables is multiplication of polynomials over GF(2) modulo 0x11d,
-- written out by shifting one factor and adding it for every bit of the other.
pub times-shift_and_add : (a b : ℕ) → a < 256 → b < 256 → times a b ≡ shift_and_add 8 a b
times-shift_and_add a b ha hb = times-shift_and_add_bits 8 a b ha ha hb
