-- ===== src/Web/Qr/Best.antt =====
-- web/src/lib/qr.ts, `qrMatrix`: the mask that is chosen.
use mekamb_chat.Common.{
  ℕ, zero, suc, ◌+◌, ◌≤◌, ◌<◌, ◌≡◌, refl, sym, ap, subst, All, length, arith, ltb, ltb→lt, ◌==◌,
  ==_iff,
}
use mekamb_chat.Common.{true, false, Bool-cases, Option, some, List, inl, inr}
use mekamb_chat.Web.Qr.Penalty.{Rows, penalty, choose_mask, matrix}
use mekamb_chat.Web.Qr.Patterns.{frame}
use mekamb_chat.Web.Qr.Zigzag.{write_data, to_rows, matrix_with_mask}
use mekamb_chat.Web.Qr.Decoding.{read_with-matrix_of}

-- One of the symbols with a mask from i up to n.
unfoldable pub OneOf : List ℕ → ℕ → ℕ → Rows → Type 0
OneOf bytes i n m = (mask : ℕ) × (i ≤ mask) × (mask < n) × (matrix_with_mask bytes mask ≡ some m)

unfoldable pub NoBetter : List ℕ → ℕ → ℕ → ℕ → Type 0
NoBetter bytes i n lowest =
    (mask : ℕ) (m : Rows)
    → i ≤ mask
    → mask < n
    → matrix_with_mask bytes mask ≡ some m
    → lowest ≤ penalty m

-- What the loop returns.
unfoldable Chosen : List ℕ → ℕ → Option Rows → Type 0
Chosen bytes n result =
    (m : Rows) × (result ≡ some m) × OneOf bytes 0 n m × NoBetter bytes 0 n (penalty m)

-- The mask i is tried next: it is no better, or it is the best so far.
extend :
    (bytes : List ℕ) (i lowest : ℕ) (ready : Rows)
    → matrix_with_mask bytes i ≡ some ready
    → lowest ≤ penalty ready
    → NoBetter bytes 0 i lowest
    → NoBetter bytes 0 (suc i) lowest
unfolding NoBetter
extend bytes i lowest ready here le low mask m lo hi found = elim (Bool-cases (mask == i)) [
  | inl e ↦
      let same : ready ≡ m = cc (here, found, ap (matrix_with_mask bytes) ((==_iff mask i).0 e)) in
      subst (λ x. lowest ≤ penalty x) same le
  | inr e ↦ low mask m lo (ground arith) found
]

weaken :
    (bytes : List ℕ) (i lowest less : ℕ)
    → less ≤ lowest
    → NoBetter bytes 0 i lowest
    → NoBetter bytes 0 i less
unfolding NoBetter
weaken bytes i lowest less le low mask m lo hi found = omega (arith, low mask m lo hi found)

later : (bytes : List ℕ) (i : ℕ) (m : Rows) → OneOf bytes 0 i m → OneOf bytes 0 (suc i) m
unfolding OneOf
later bytes i m (mask, lo, hi, found) = (mask, lo, omega arith, found)

now :
    (bytes : List ℕ) (i : ℕ) (m : Rows)
    → matrix_with_mask bytes i ≡ some m
    → OneOf bytes 0 (suc i) m
unfolding OneOf
now bytes i m here = (i, omega arith, omega arith, here)

step_better :
    (n i : ℕ) (bytes : List ℕ) (best ready : Rows)
    → matrix_with_mask bytes i ≡ some ready
    → ltb (penalty ready) (penalty best) ≡ true
    → choose_mask (suc n) i bytes best (penalty best)
      ≡ choose_mask n (suc i) bytes ready (penalty ready)
unfolding choose_mask
step_better n i bytes best ready here e = rw (choose_mask, here, e) refl

step_kept :
    (n i : ℕ) (bytes : List ℕ) (best ready : Rows)
    → matrix_with_mask bytes i ≡ some ready
    → ltb (penalty ready) (penalty best) ≡ false
    → choose_mask (suc n) i bytes best (penalty best)
      ≡ choose_mask n (suc i) bytes best (penalty best)
unfolding choose_mask
step_kept n i bytes best ready here e = rw (choose_mask, here, e) refl

nothing_before : (bytes : List ℕ) (n : ℕ) → NoBetter bytes 0 0 n
unfolding NoBetter
nothing_before bytes n mask m lo hi found = absurd (omega arith)

choose_mask_lem :
    (n i : ℕ) (bytes : List ℕ) (best : Rows)
    → ((mask : ℕ) → (m : Rows) × (matrix_with_mask bytes mask ≡ some m))
    → OneOf bytes 0 i best
    → NoBetter bytes 0 i (penalty best)
    → Chosen bytes (n + i) (choose_mask n i bytes best (penalty best))
choose_mask_lem zero i bytes best total one low =
    subst (λ k. Chosen bytes k (choose_mask 0 i bytes best (penalty best))) (zero_plus i)
      (unfold choose_mask Chosen in (best, refl, one, low))
  where
    zero_plus : (x : ℕ) → x ≡ 0 + x
    zero_plus x = omega arith
choose_mask_lem (suc n) i bytes best total one low =
    let (ready, here) = total i in
    elim (Bool-cases (ltb (penalty ready) (penalty best))) [
      | inl better ↦
          let less : penalty ready ≤ penalty best = ground (arith, ltb→lt _ _ better) in
          let rest = choose_mask_lem n (suc i) bytes ready total (now bytes i ready here) (
            extend bytes i (penalty ready) ready here (omega arith)
              (weaken bytes i (penalty best) (penalty ready) less low)) in
          subst (λ k. Chosen bytes k (choose_mask (suc n) i bytes best (penalty best)))
            (plus_suc n i)
            (subst (Chosen bytes (n + suc i)) (sym (step_better n i bytes best ready here better))
              rest)
      | inr kept ↦
          let rest =
            choose_mask_lem n (suc i) bytes best total (later bytes i best one)
              (extend bytes i (penalty best) ready here (ground arith) low) in
          subst (λ k. Chosen bytes k (choose_mask (suc n) i bytes best (penalty best)))
            (plus_suc n i)
            (subst (Chosen bytes (n + suc i)) (sym (step_kept n i bytes best ready here kept)) rest)
    ]
  where
    plus_suc : (x y : ℕ) → x + suc y ≡ suc x + y
    plus_suc x y = omega arith

mask_total :
    (bytes : List ℕ)
    → All (λ b. b < 256) bytes
    → length bytes ≤ 213
    → (mask : ℕ) → (m : Rows) × (matrix_with_mask bytes mask ≡ some m)
unfolding matrix_with_mask
mask_total bytes h small mask =
    let (v, codewords, chosen, built, readable) = read_with-matrix_of bytes mask h small in
    (to_rows (write_data codewords mask (frame v mask)), rw (matrix_with_mask, built) refl)

-- For a text of at most 213 bytes `qrMatrix` returns a symbol, it carries one of the eight masks,
-- and none of the eight symbols has a smaller penalty.
pub matrix_least :
    (bytes : List ℕ)
    → All (λ b. b < 256) bytes
    → length bytes ≤ 213
    → (m : Rows) × (matrix bytes ≡ some m) × OneOf bytes 0 8 m × NoBetter bytes 0 8 (penalty m)
unfolding matrix Chosen
matrix_least bytes h small =
    let total = mask_total bytes h small in
    let (first, here) = total 0 in
    let (m, e, one, low) = choose_mask_lem 7 1 bytes first total (now bytes 0 first here) (
      extend bytes 0 (penalty first) first here (omega arith)
        (nothing_before bytes (penalty first))) in
    (m, rw (matrix, here) e, one, low)
