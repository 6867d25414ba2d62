-- ===== src/Web/Qr/Alignment.antt =====
-- web/src/lib/qr.ts, `ulozDane`: the loop that fills up the last byte.
use mekamb_chat.Common.{
  ℕ, zero, suc, ◌+◌, ◌-◌, ◌%◌, ◌≤◌, ◌≡◌, refl, sym, ap, ◌∙◌, arith, ◌==◌, ==_iff,
}
use mekamb_chat.Common.{false, Bool-cases, inl, inr, List, [], ◌∷◌, ◌++◌, length, length-append}
use mekamb_chat.Web.Qr.Stream.{aligned}

full_already : (k : ℕ) (bits : List ℕ) → length bits % 8 ≡ 0 → aligned k bits ≡ bits
unfolding aligned
full_already zero bits h = refl
full_already (suc k) bits h = rw h refl

one_more :
    (k : ℕ) (bits : List ℕ)
    → (length bits % 8 == 0) ≡ false
    → aligned (suc k) bits ≡ aligned k (bits ++ (0 ∷ []))
unfolding aligned
one_more k bits h = rw h refl

-- One round more than is needed changes nothing.
stable :
    (k : ℕ) (bits : List ℕ)
    → (8 - length bits % 8) % 8 ≤ k
    → (aligned (suc k) bits ≡ aligned k bits) × (length (aligned k bits) % 8 ≡ 0)
stable zero bits h =
    let full : length bits % 8 ≡ 0 = omega arith in
    (
      full_already 1 bits full ∙ sym (full_already 0 bits full),
      ap (λ l. length l % 8) (full_already 0 bits full) ∙ full,
    )
stable (suc k) bits h = elim (Bool-cases (length bits % 8 == 0)) [
  | inl e ↦
      let full = (==_iff (length bits % 8) 0).0 e in
      (
        full_already (suc (suc k)) bits full ∙ sym (full_already (suc k) bits full),
        ap (λ l. length l % 8) (full_already (suc k) bits full) ∙ full,
      )
  | inr e ↦
      let (same, full) =
        stable k (bits ++ (0 ∷ [])) (ground (arith, length-append bits (0 ∷ []))) in
      (
        one_more (suc k) bits e ∙ same ∙ sym (one_more k bits e),
        ap (λ l. length l % 8) (one_more k bits e) ∙ full,
      )
]

-- The loop that pushes zeros up to a whole byte ends after at most seven rounds: any number of rounds
-- from seven on gives the same bits, and their number is a multiple of eight.
pub aligned_ends :
    (bits : List ℕ) (more : ℕ)
    → (aligned (more + 7) bits ≡ aligned 7 bits) × (length (aligned 7 bits) % 8 ≡ 0)
aligned_ends bits more = (same more, (stable 7 bits (omega arith)).1)
  where
    suc_plus : (k : ℕ) → suc k + 7 ≡ suc (k + 7)
    suc_plus k = omega arith

    same : (k : ℕ) → aligned (k + 7) bits ≡ aligned 7 bits
    same zero = ap (λ n. aligned n bits) (omega arith)
    same (suc k) =
        ap (λ n. aligned n bits) (suc_plus k) ∙ (stable (k + 7) bits (omega arith)).0 ∙ same k
