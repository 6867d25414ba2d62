-- ===== src/Web/Qr/Codewords.antt =====
-- web/src/lib/qr.ts, `przeplec`: the codewords are bytes, and as many as the version has room for.
use mekamb_chat.Common.{ℕ, zero, suc, ◌+◌, ◌-◌, ◌*◌, ◌≤◌, ◌≡◌, refl, ap, subst, ◌∙◌, arith}
use mekamb_chat.Common.{length, length-append, drop, map, All, All-append, get_or_else}
use mekamb_chat.Common.{some, List, [], ◌∷◌, Option-cases, inl, inr}
use mekamb_chat.Common.Arrays.{at?, at?_bound}
use mekamb_chat.Web.Qr.Versions.{Parameters}
use mekamb_chat.Web.Qr.Stream.{first_bytes}
use mekamb_chat.Web.Qr.Correction.{correction}
use mekamb_chat.Web.Qr.Codeword.{correction_codeword}
use mekamb_chat.Web.Qr.Interleave.{sizes, cut, row, rows, longest, correction_rows, written}
use mekamb_chat.Web.Qr.Roots.{IsByte}

abbrev Bytes : List (List ℕ) → Type 0
Bytes blocks = All (λ block. All IsByte block) blocks

at?-IsByte : (i b : ℕ) (l : List ℕ) → All IsByte l → at? i l ≡ some b → IsByte b
at?-IsByte i b [] h e = absurd (cc e)
at?-IsByte zero b (x ∷ l) (hx, h) e = subst IsByte (cc e) hx
at?-IsByte (suc i) b (x ∷ l) (hx, h) e = at?-IsByte i b l h e

first_bytes-IsByte : (n : ℕ) (l : List ℕ) → All IsByte l → All IsByte (first_bytes n l)
unfolding first_bytes
first_bytes-IsByte zero l h = tt
first_bytes-IsByte (suc n) [] h = tt
first_bytes-IsByte (suc n) (x ∷ l) (hx, h) = (hx, first_bytes-IsByte n l h)

drop-IsByte : (n : ℕ) (l : List ℕ) → All IsByte l → All IsByte (drop n l)
drop-IsByte zero l h = h
drop-IsByte (suc n) [] h = tt
drop-IsByte (suc n) (x ∷ l) (hx, h) = drop-IsByte n l h

cut-IsByte : (l bytes : List ℕ) → All IsByte bytes → Bytes (cut l bytes)
unfolding cut
cut-IsByte [] bytes h = tt
cut-IsByte (n ∷ l) bytes h =
    (first_bytes-IsByte n bytes h, cut-IsByte l (drop n bytes) (drop-IsByte n bytes h))

row-IsByte : (i : ℕ) (blocks : List (List ℕ)) → Bytes blocks → All IsByte (row i blocks)
unfolding row
row-IsByte i [] h = tt
row-IsByte i (block ∷ blocks) (hb, h) = elim (Option-cases (at? i block)) [
  | inl e ↦ rw (row, e) (row-IsByte i blocks h)
  | inr (b, e) ↦ rw (row, e) (at?-IsByte i b block hb e, row-IsByte i blocks h)
]

rows-IsByte : (n i : ℕ) (blocks : List (List ℕ)) → Bytes blocks → All IsByte (rows n i blocks)
unfolding rows
rows-IsByte zero i blocks h = tt
rows-IsByte (suc n) i blocks h =
    All-append IsByte (row i blocks) (rows n (suc i) blocks) (row-IsByte i blocks h)
      (rows-IsByte n (suc i) blocks h)

correction_row-IsByte :
    (i : ℕ) (blocks : List (List ℕ))
    → Bytes blocks
    → All IsByte (map (λ block. get_or_else (at? i block) 0) blocks)
correction_row-IsByte i [] h = tt
correction_row-IsByte i (block ∷ blocks) (hb, h) = (head_byte, correction_row-IsByte i blocks h)
  where
    head_byte : IsByte (get_or_else (at? i block) 0)
    head_byte = elim (Option-cases (at? i block)) [
      | inl e ↦ rw e (omega arith)
      | inr (b, e) ↦ rw e (at?-IsByte i b block hb e)
    ]

correction_rows-IsByte :
    (n i : ℕ) (blocks : List (List ℕ)) → Bytes blocks → All IsByte (correction_rows n i blocks)
unfolding correction_rows
correction_rows-IsByte zero i blocks h = tt
correction_rows-IsByte (suc n) i blocks h =
    All-append IsByte (map (λ block. get_or_else (at? i block) 0) blocks)
      (correction_rows n (suc i) blocks) (correction_row-IsByte i blocks h)
      (correction_rows-IsByte n (suc i) blocks h)

corrections-IsByte :
    (ec : ℕ) (blocks : List (List ℕ))
    → ec ≤ 255
    → Bytes blocks
    → Bytes (map (λ block. correction block ec) blocks)
corrections-IsByte ec [] small h = tt
corrections-IsByte ec (block ∷ blocks) small (hb, h) =
    ((correction_codeword block ec small hb).1, corrections-IsByte ec blocks small h)

pub written-IsByte :
    (p : Parameters) (bytes : List ℕ)
    → p.ec ≤ 255
    → All IsByte bytes
    → All IsByte (written p (cut (sizes p.groups) bytes))
unfolding written
written-IsByte p bytes small h =
    let blocks = cut-IsByte (sizes p.groups) bytes h in
    All-append IsByte (rows (longest (cut (sizes p.groups) bytes)) 0 (cut (sizes p.groups) bytes)) _
      (rows-IsByte (longest (cut (sizes p.groups) bytes)) 0 (cut (sizes p.groups) bytes) blocks)
      (correction_rows-IsByte p.ec 0 _
        (corrections-IsByte p.ec (cut (sizes p.groups) bytes) small blocks))

-- What the blocks hold from i on.
remaining : ℕ → List (List ℕ) → ℕ
remaining i [] = 0
remaining i (block ∷ blocks) = (length block - i) + remaining i blocks

length-row :
    (i : ℕ) (blocks : List (List ℕ))
    → length (row i blocks) + remaining (suc i) blocks ≤ remaining i blocks
unfolding remaining row
length-row i [] = omega arith
length-row i (block ∷ blocks) = elim (Option-cases (at? i block)) [
  | inl e ↦ rw (row, e) (omega (arith, length-row i blocks))
  | inr (b, e) ↦ rw (row, e) (omega (arith, length-row i blocks, at?_bound i block b e))
]

length-rows : (n i : ℕ) (blocks : List (List ℕ)) → length (rows n i blocks) ≤ remaining i blocks
unfolding rows
length-rows zero i blocks = omega arith
length-rows (suc n) i blocks = omega (
  arith,
  length-append (row i blocks) (rows n (suc i) blocks),
  length-row i blocks,
  length-rows n (suc i) blocks,
)

length-map {ℓ} :
    {A : Type ℓ} (f : List ℕ → A) (blocks : List (List ℕ)) → length (map f blocks) ≡ length blocks
length-map f [] = refl
length-map f (block ∷ blocks) = omega (arith, length-map f blocks)

length-correction_rows :
    (n i : ℕ) (blocks : List (List ℕ)) → length (correction_rows n i blocks) ≡ n * length blocks
unfolding correction_rows
length-correction_rows zero i blocks = omega arith
length-correction_rows (suc n) i blocks = grind (
  arith,
  length-append (map (λ block. get_or_else (at? i block) 0) blocks)
      (correction_rows n (suc i) blocks),
  length-map (λ block. get_or_else (at? i block) 0) blocks,
  length-correction_rows n (suc i) blocks,
)

length-cut : (l bytes : List ℕ) → length (cut l bytes) ≡ length l
unfolding cut
length-cut [] bytes = refl
length-cut (n ∷ l) bytes = omega (arith, length-cut l (drop n bytes))

length-first_bytes : (n : ℕ) (l : List ℕ) → length (first_bytes n l) + length (drop n l) ≡ length l
unfolding first_bytes
length-first_bytes zero l = omega arith
length-first_bytes (suc n) [] = refl
length-first_bytes (suc n) (b ∷ l) = omega (arith, length-first_bytes n l)

remaining-cut : (l bytes : List ℕ) → remaining 0 (cut l bytes) ≤ length bytes
unfolding cut remaining
remaining-cut [] bytes = omega arith
remaining-cut (n ∷ l) bytes =
    omega (arith, length-first_bytes n bytes, remaining-cut l (drop n bytes))

pub length-written :
    (p : Parameters) (bytes : List ℕ)
    → length (written p (cut (sizes p.groups) bytes))
      ≤ length bytes + p.ec * length (sizes p.groups)
unfolding written
length-written p bytes =
    let blocks = cut (sizes p.groups) bytes in
    let corrections = map (λ block. correction block p.ec) blocks in
    omega (
      arith,
      length-append (rows (longest blocks) 0 blocks) (correction_rows p.ec 0 corrections),
      length-rows (longest blocks) 0 blocks,
      remaining-cut (sizes p.groups) bytes,
      length-correction_rows p.ec 0 corrections,
      ap (λ n. p.ec * n)
          (length-map (λ block. correction block p.ec) blocks ∙ length-cut (sizes p.groups) bytes),
    )
