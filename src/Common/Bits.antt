-- ===== src/Common/Bits.antt =====
-- Exclusive or of numbers: the laws that hold of it as of a sum of digits modulo 2, and tables that
-- are checked value by value.
use Prim.Native.Nat.{
  ℕ, zero, suc, ◌+◌, ◌*◌, ◌/◌, ◌%◌, ◌^◌, ◌≤◌, ◌<◌, bit_xor, bit_xor-bitwise, digits, differ,
}
use mathlib.Core.Path.{◌≡◌, refl, sym, ap, ◌∙◌}
use mathlib.Core.Logic.{inl, inr}
use mathlib.Core.List.{List, [], ◌∷◌}
use mathlib.Core.Bool.{Bool, true}
use mekamb_chat.Common.Tests.{◌==◌, ==_iff, Bool-cases}
use mekamb_chat.Common.Lists.{all}
use native.Mathlib.Omega.{arith}
use native.Mathlib.Nat.{pow-suc}

-- The numbers below a bound, from the highest down.
unfoldable pub descending : ℕ → List ℕ
descending zero = []
descending (suc n) = n ∷ descending n

-- A test of all of them, which evaluation decides.
unfoldable pub all_below : ℕ → (ℕ → Bool) → Bool
all_below n test = all test (descending n)

-- One line of such a table.
pub table_row : (n : ℕ) (test : ℕ → Bool) (x : ℕ) → all_below n test ≡ true → x < n → test x ≡ true
unfolding all_below descending
table_row zero test x table inside = absurd (omega arith)
table_row (suc n) test x table inside = elim (Bool-cases (x == n)) [
  | inl e ↦ rw ((==_iff x n).0 e) (ground (arith, table))
  | inr e ↦ table_row n test x (ground (arith, table)) (ground arith)
]

-- The digits that the native operation writes, with any fuel that is enough.
abbrev xor_digits : ℕ → ℕ → ℕ → ℕ
xor_digits n a b = digits (λ y. y) differ n a b

-- One round more than there are digits writes nothing.
spare_round : (n a b : ℕ) → a ≤ n → xor_digits (suc n) a b ≡ xor_digits n a b
spare_round n zero b le = spare_zero n
  where
    spare_zero : (k : ℕ) → xor_digits (suc k) 0 b ≡ xor_digits k 0 b
    spare_zero zero = refl
    spare_zero (suc k) = refl
spare_round zero (suc a) b le = absurd (omega arith)
spare_round (suc n) (suc a) b le =
    ap (λ t. t * 2 + differ (suc a % 2) (b % 2)) (spare_round n (suc a / 2) (b / 2) (omega arith))

enough_rounds : (n a b : ℕ) → a ≤ n → xor_digits n a b ≡ xor_digits a a b
enough_rounds zero zero b le = refl
enough_rounds zero (suc a) b le = absurd (omega arith)
enough_rounds (suc n) a b le = elim (Bool-cases (a == suc n)) [
  | inl e ↦ ap (λ t. xor_digits t a b) (sym ((==_iff a (suc n)).0 e))
  | inr e ↦ spare_round n a b (ground arith) ∙ enough_rounds n a b (ground arith)
]

differ_below_two : (a b : ℕ) → a < 2 → b < 2 → differ a b ≡ (a + b) % 2
differ_below_two zero zero p q = refl
differ_below_two zero (suc zero) p q = refl
differ_below_two zero (suc (suc b)) p q = absurd (omega arith)
differ_below_two (suc zero) zero p q = refl
differ_below_two (suc zero) (suc zero) p q = refl
differ_below_two (suc zero) (suc (suc b)) p q = absurd (omega arith)
differ_below_two (suc (suc a)) b p q = absurd (omega arith)

zero-bit_xor : (b : ℕ) → bit_xor 0 b ≡ b
zero-bit_xor b = bit_xor-bitwise 0 b

-- The lowest digit, and the rest.
pub bit_xor_step : (a b : ℕ) → bit_xor a b ≡ bit_xor (a / 2) (b / 2) * 2 + (a % 2 + b % 2) % 2
bit_xor_step zero b = omega (arith, zero-bit_xor b, zero-bit_xor (b / 2))
bit_xor_step (suc a) b = omega (
  arith,
  bit_xor-bitwise (suc a) b,
  bit_xor-bitwise (suc a / 2) (b / 2),
  enough_rounds a (suc a / 2) (b / 2) (omega arith),
  differ_below_two (suc a % 2) (b % 2) (omega arith) (omega arith),
)

comm_fuel : (n a b : ℕ) → a ≤ n → b ≤ n → bit_xor a b ≡ bit_xor b a
comm_fuel zero zero zero p q = refl
comm_fuel zero (suc a) b p q = absurd (omega arith)
comm_fuel zero zero (suc b) p q = absurd (omega arith)
comm_fuel (suc n) a b p q = omega (
  arith,
  bit_xor_step a b,
  bit_xor_step b a,
  comm_fuel n (a / 2) (b / 2) (omega arith) (omega arith),
)

pub bit_xor_comm : (a b : ℕ) → bit_xor a b ≡ bit_xor b a
bit_xor_comm a b = comm_fuel (a + b) a b (omega arith) (omega arith)

assoc_fuel :
    (n a b c : ℕ) → a ≤ n → b ≤ n → c ≤ n → bit_xor (bit_xor a b) c ≡ bit_xor a (bit_xor b c)
assoc_fuel zero zero zero zero p q r = refl
assoc_fuel zero (suc a) b c p q r = absurd (omega arith)
assoc_fuel zero zero (suc b) c p q r = absurd (omega arith)
assoc_fuel zero zero zero (suc c) p q r = absurd (omega arith)
assoc_fuel (suc n) a b c p q r = omega (
  arith,
  bit_xor_step a b,
  bit_xor_step b c,
  bit_xor_step (bit_xor a b) c,
  bit_xor_step a (bit_xor b c),
  halves a b,
  halves b c,
  assoc_fuel n (a / 2) (b / 2) (c / 2) (omega arith) (omega arith) (omega arith),
  ap (λ (t : ℕ). bit_xor t (c / 2)) (halves a b),
  ap (λ (t : ℕ). bit_xor (a / 2) t) (halves b c),
)
  where
    halves : (x y : ℕ) → bit_xor x y / 2 ≡ bit_xor (x / 2) (y / 2)
    halves x y = omega (arith, bit_xor_step x y)

pub bit_xor_assoc : (a b c : ℕ) → bit_xor (bit_xor a b) c ≡ bit_xor a (bit_xor b c)
bit_xor_assoc a b c = assoc_fuel (a + b + c) a b c (omega arith) (omega arith) (omega arith)

pub bit_xor-zero : (a : ℕ) → bit_xor a 0 ≡ a
bit_xor-zero a = bit_xor_comm a 0 ∙ zero-bit_xor a

self_fuel : (n a : ℕ) → a ≤ n → bit_xor a a ≡ 0
self_fuel zero zero p = refl
self_fuel zero (suc a) p = absurd (omega arith)
self_fuel (suc n) a p = omega (arith, bit_xor_step a a, self_fuel n (a / 2) (omega arith))

-- A number cancels itself.
pub bit_xor_self : (a : ℕ) → bit_xor a a ≡ 0
bit_xor_self a = self_fuel a a (omega arith)

-- Two numbers of k digits have an exclusive or of k digits.
pub bit_xor_below : (k a b : ℕ) → a < 2 ^ k → b < 2 ^ k → bit_xor a b < 2 ^ k
bit_xor_below zero a b p q = ground (arith, bit_xor_self 0)
bit_xor_below (suc k) a b p q = omega (
  arith,
  pow-suc 2 k,
  bit_xor_step a b,
  bit_xor_below k (a / 2) (b / 2) (omega (arith, pow-suc 2 k)) (omega (arith, pow-suc 2 k)),
)
