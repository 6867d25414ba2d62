-- ===== src/Web/Qr/FieldLaws.antt =====
-- web/src/lib/qr.ts, arithmetic of GF(256): the laws of the field.
use mekamb_chat.Common.{ℕ, zero, suc, ◌+◌, ◌-◌, ◌<◌, ◌≡◌, refl, sym, ap, subst, ◌∙◌, arith}
use mekamb_chat.Common.{true, false, ◌&&◌, ltb, ◌==◌, ==_iff, ltb→lt, Bool-cases}
use mekamb_chat.Common.{inl, inr}
use mekamb_chat.Common.Bits.{descending, all_below, table_row, bit_xor_below, bit_xor_self}
use mekamb_chat.Web.Qr.Field.{
  doubled, fill, filled, repeat_exps, exp_table, log_table, exp, log, times,
}
use Prim.Native.Nat.{bit_xor}

-- Tables that evaluation checks: the powers below 510 are bytes and not 0, and repeat after 255.
at_powers : all_below 255 (λ i. (log (exp i) == i) && (ltb (exp i) 256 && ltb 0 (exp i))) ≡ true
unfolding all_below descending log exp exp_table log_table filled fill repeat_exps doubled
at_powers = refl

at_high_powers : all_below 255 (λ i. exp (255 + i) == exp i) ≡ true
unfolding all_below descending exp exp_table filled fill repeat_exps doubled
at_high_powers = refl

at_next : all_below 509 (λ i. exp (i + 1) == doubled (exp i)) ≡ true
unfolding all_below descending exp exp_table filled fill repeat_exps doubled
at_next = refl

at_exps : all_below 510 (λ i. ltb (exp i) 256) ≡ true
unfolding all_below descending exp exp_table filled fill repeat_exps doubled
at_exps = refl

at_bytes : all_below 255 (λ a. (exp (log (suc a)) == suc a) && ltb (log (suc a)) 255) ≡ true
unfolding all_below descending log exp exp_table log_table filled fill repeat_exps doubled
at_bytes = refl

at_pairs :
    all_below 256
      (λ a. all_below 256 (λ b. doubled (bit_xor a b) == bit_xor (doubled a) (doubled b)))
    ≡ true
unfolding all_below descending doubled
at_pairs = refl

at_doubled : all_below 256 (λ a. ltb (doubled a) 256) ≡ true
unfolding all_below descending doubled
at_doubled = refl

module _ (i : ℕ) (h : i < 255) where
  row : ((log (exp i) == i) && (ltb (exp i) 256 && ltb 0 (exp i))) ≡ true
  row = table_row 255 _ i at_powers h

  pub log-exp : log (exp i) ≡ i
  log-exp = ground (arith, row)

  pub exp-le : exp i < 256
  exp-le = ground (arith, row)

  pub exp-positive : 0 < exp i
  exp-positive = ground (arith, row)

  pub exp_repeats : exp (255 + i) ≡ exp i
  exp_repeats = (==_iff _ _).0 (table_row 255 _ i at_high_powers h)

module _ (a : ℕ) (p : 0 < a) (q : a < 256) where
  byte_row : (b : ℕ) → a ≡ suc b → ((exp (log a) == a) && ltb (log a) 255) ≡ true
  byte_row b e = rw e (table_row 255 _ b at_bytes (omega arith))

  pub exp-log : exp (log a) ≡ a
  exp-log = ground (arith, byte_row (a - 1) (omega arith))

  pub log-le : log a < 255
  log-le = ground (arith, byte_row (a - 1) (omega arith))

pub doubled_byte : (a : ℕ) → a < 256 → doubled a < 256
doubled_byte a h = ground (arith, table_row 256 _ a at_doubled h)

pub doubled-bit_xor :
    (a b : ℕ) → a < 256 → b < 256 → doubled (bit_xor a b) ≡ bit_xor (doubled a) (doubled b)
doubled-bit_xor a b p q = (==_iff _ _).0 (table_row 256 _ b (table_row 256 _ a at_pairs p) q)

pub times-zero : (a : ℕ) → times a 0 ≡ 0
unfolding times
times-zero a = ground arith

pub zero-times : (a : ℕ) → times 0 a ≡ 0
unfolding times
zero-times a = refl

pub times_comm : (a b : ℕ) → times a b ≡ times b a
unfolding times
times_comm a b = ground (arith, ap exp (add_comm (log a) (log b)))
  where
    add_comm : (x y : ℕ) → x + y ≡ y + x
    add_comm x y = omega arith

-- A power times a byte: the exponents add, and run around.
exp-times : (i b : ℕ) → i < 255 → 0 < b → b < 256 → times (exp i) b ≡ exp (i + log b)
unfolding times
exp-times i b h p q = ground (arith, exp-positive i h, log-exp i h)

exp_byte : (i : ℕ) → i < 510 → exp i < 256
exp_byte i h = ltb→lt _ _ (table_row 510 _ i at_exps h)

exp_suc : (i : ℕ) → i < 509 → exp (i + 1) ≡ doubled (exp i)
exp_suc i h = (==_iff _ _).0 (table_row 509 _ i at_next h)

pub times_byte : (a b : ℕ) → a < 256 → b < 256 → times a b < 256
unfolding times
times_byte a b p q = ground (arith, exp_byte (log a + log b), log-le a, log-le b)

double_step :
    (i b : ℕ) → i < 255 → 0 < b → b < 256 → times (exp (i + 1)) b ≡ doubled (times (exp i) b)
double_step i b h p q = elim (Bool-cases (ltb (i + 1) 255)) [
  | inl e ↦
      exp-times (i + 1) b (ltb→lt _ _ e) p q
      ∙ ap exp (shift i (log b))
      ∙ exp_suc (i + log b) (omega (arith, log-le b p q))
      ∙ ap doubled (sym (exp-times i b h p q))
  | inr e ↦
      ap (λ t. times (exp t) b) (last_power i h e)
      ∙ ap (λ t. times t b) (exp_repeats 0 (omega arith))
      ∙ exp-times 0 b (omega arith) p q
      ∙ ap exp (zero_plus (log b))
      ∙ sym (exp_repeats (log b) (log-le b p q))
      ∙ ap exp (around i h e (log b))
      ∙ exp_suc (i + log b) (omega (arith, log-le b p q))
      ∙ ap doubled (sym (exp-times i b h p q))
]
  where
    zero_plus : (y : ℕ) → 0 + y ≡ y
    zero_plus y = omega arith

    shift : (x y : ℕ) → x + 1 + y ≡ x + y + 1
    shift x y = omega arith

    last_power : (x : ℕ) → x < 255 → ltb (x + 1) 255 ≡ false → x + 1 ≡ 255
    last_power x h e = ground arith

    around : (x : ℕ) → x < 255 → ltb (x + 1) 255 ≡ false → (y : ℕ) → 255 + y ≡ x + y + 1
    around x h e y = ground arith

doubled-zero : doubled 0 ≡ 0
unfolding doubled
doubled-zero = refl

-- Doubling one factor doubles the product.
pub doubled-times : (a b : ℕ) → a < 256 → b < 256 → times (doubled a) b ≡ doubled (times a b)
doubled-times zero b p q = rw (zero-times, doubled-zero, zero-times) refl
doubled-times (suc a) zero p q = rw (times-zero, times-zero, doubled-zero) refl
doubled-times (suc a) (suc b) p q =
    let hi = log-le (suc a) (omega arith) p in
    let e = exp-log (suc a) (omega arith) p in
    ap (λ t. times (doubled t) (suc b)) (sym e)
    ∙ ap (λ t. times t (suc b)) (sym (exp_suc (log (suc a)) (omega (arith, hi))))
    ∙ double_step (log (suc a)) (suc b) hi (omega arith) q
    ∙ ap (λ t. doubled (times t (suc b))) e

power_zero-times : (b : ℕ) → b < 256 → times (exp 0) b ≡ b
power_zero-times zero h = times-zero (exp 0)
power_zero-times (suc b) h =
    exp-times 0 (suc b) (omega arith) (omega arith) h
    ∙ ap exp (zero_plus (log (suc b)))
    ∙ exp-log (suc b) (omega arith) h
  where
    zero_plus : (y : ℕ) → 0 + y ≡ y
    zero_plus y = omega arith

first_power : exp 0 ≡ 1
unfolding exp exp_table filled fill repeat_exps
first_power = refl

pub one-times : (b : ℕ) → b < 256 → times 1 b ≡ b
one-times b h = ap (λ t. times t b) (sym first_power) ∙ power_zero-times b h

-- What holds of every power of the element 2 by steps holds of every byte but 0.
module _ (P : ℕ → Type 0) (base : P (exp 0)) (next : (x : ℕ) → x < 256 → P x → P (doubled x)) where
  at_power : (i : ℕ) → i < 255 → P (exp i)
  at_power zero h = base
  at_power (suc i) h =
      subst P (sym (exp_suc i (omega arith)) ∙ ap exp (plus_one i))
        (next (exp i) (exp-le i (omega arith)) (at_power i (omega arith)))
    where
      plus_one : (x : ℕ) → x + 1 ≡ suc x
      plus_one x = omega arith

  pub byte_induction : (a : ℕ) → 0 < a → a < 256 → P a
  byte_induction a p q = subst P (exp-log a p q) (at_power (log a) (log-le a p q))

byte_xor : (a b : ℕ) → a < 256 → b < 256 → bit_xor a b < 256
byte_xor a b p q = bit_xor_below 8 a b p q

times_distrib_positive :
    (a b c : ℕ)
    → 0 < a
    → a < 256
    → b < 256
    → c < 256
    → times a (bit_xor b c) ≡ bit_xor (times a b) (times a c)
times_distrib_positive a b c p q hb hc =
    byte_induction (λ x. times x (bit_xor b c) ≡ bit_xor (times x b) (times x c))
      (rw
        (
          power_zero-times (bit_xor b c) (byte_xor b c hb hc),
          power_zero-times b hb,
          power_zero-times c hc,
        )
        refl)
      (λ x hx e.
        doubled-times x (bit_xor b c) hx (byte_xor b c hb hc)
        ∙ ap doubled e
        ∙ doubled-bit_xor (times x b) (times x c) (times_byte x b hx hb) (times_byte x c hx hc)
        ∙ ap (λ t. bit_xor t (doubled (times x c))) (sym (doubled-times x b hx hb))
        ∙ ap (λ t. bit_xor (times (doubled x) b) t) (sym (doubled-times x c hx hc)))
      a p q

-- Multiplication distributes over exclusive or.
pub times_distrib :
    (a b c : ℕ)
    → a < 256
    → b < 256
    → c < 256
    → times a (bit_xor b c) ≡ bit_xor (times a b) (times a c)
times_distrib zero b c q hb hc = rw (zero-times, zero-times, zero-times) (sym (bit_xor_self 0))
times_distrib (suc a) b c q hb hc = times_distrib_positive (suc a) b c (omega arith) q hb hc

times_assoc_positive :
    (a b c : ℕ) → 0 < a → a < 256 → b < 256 → c < 256 → times a (times b c) ≡ times (times a b) c
times_assoc_positive a b c p q hb hc =
    byte_induction (λ x. times x (times b c) ≡ times (times x b) c)
      (power_zero-times (times b c) (times_byte b c hb hc)
        ∙ ap (λ t. times t c) (sym (power_zero-times b hb)))
      (λ x hx e.
        doubled-times x (times b c) hx (times_byte b c hb hc)
        ∙ ap doubled e
        ∙ sym (doubled-times (times x b) c (times_byte x b hx hb) hc)
        ∙ ap (λ t. times t c) (sym (doubled-times x b hx hb)))
      a p q

pub times_assoc :
    (a b c : ℕ) → a < 256 → b < 256 → c < 256 → times a (times b c) ≡ times (times a b) c
times_assoc zero b c q hb hc = rw (zero-times, zero-times, zero-times) refl
times_assoc (suc a) b c q hb hc = times_assoc_positive (suc a) b c (omega arith) q hb hc
