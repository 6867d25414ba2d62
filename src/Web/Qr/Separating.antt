-- ===== src/Web/Qr/Separating.antt =====
-- web/src/lib/qr.ts, `przeplec`: a reader that puts the blocks together again.
use mekamb_chat.Common.{ℕ, zero, suc, ◌+◌, ◌*◌, ◌≤◌, ◌<◌, ◌≡◌, refl, ap, subst, ◌∙◌, arith}
use mekamb_chat.Common.{max, length, drop, length-drop, map, sum_by, ltb, lt→ltb, if◌then◌else◌}
use mekamb_chat.Common.{false, Option, some, none, List, [], ◌∷◌, ◌++◌, Option-cases, inl, inr}
use mathlib.Core.List.{append_assoc}
use mekamb_chat.Common.Arrays.{at?, at?_bound, replicate}
use mekamb_chat.Web.Qr.Versions.{Group, Parameters, parameters, data_bytes, capacity}
use mekamb_chat.Web.Qr.Stream.{first_bytes}
use mekamb_chat.Web.Qr.Correction.{correction}
use mekamb_chat.Web.Qr.Interleave.{
  sizes, cut, row, rows, longest, correction_rows, written, interleave,
}

-- One round of a reader: a byte for every block that is longer than i.
unfoldable pub read_row : ℕ → List ℕ → List ℕ → List (Option ℕ) × List ℕ
read_row i [] stream = ([], stream)
read_row i (size ∷ rest) stream =
    let taken = read_row i rest (drop 1 stream) in
    let skipped = read_row i rest stream in
    if ltb i size then (at? 0 stream ∷ taken.0, taken.1) else (none ∷ skipped.0, skipped.1)

unfoldable pub put_first : List (Option ℕ) → List (List ℕ) → List (List ℕ)
put_first [] blocks = []
put_first (c ∷ cs) [] = []
put_first (none ∷ cs) (block ∷ blocks) = block ∷ put_first cs blocks
put_first (some b ∷ cs) (block ∷ blocks) = (b ∷ block) ∷ put_first cs blocks

unfoldable pub read_rows : ℕ → ℕ → List ℕ → List ℕ → List (List ℕ)
read_rows zero i sizes stream = map (λ _. []) sizes
read_rows (suc n) i sizes stream =
    let (column, rest) = read_row i sizes stream in
    put_first column (read_rows n (suc i) sizes rest)

unfoldable pub joined : List (List ℕ) → List ℕ
joined [] = []
joined (block ∷ blocks) = block ++ joined blocks

unfoldable pub largest : List ℕ → ℕ
largest [] = 0
largest (size ∷ rest) = max size (largest rest)

-- The data bytes of a stream in the order of the blocks.
unfoldable pub separate : List ℕ → ℕ → Option (List ℕ)
separate stream v = elim (parameters v) [
  | none ↦ none
  | some p ↦ some (joined (read_rows (largest (sizes p.groups)) 0 (sizes p.groups) stream))
]

not_below : (i size : ℕ) → size ≤ i → ltb i size ≡ false
not_below i size h = ground arith

drop-at? : (i : ℕ) (l : List ℕ) (b : ℕ) → at? i l ≡ some b → drop i l ≡ b ∷ drop (suc i) l
drop-at? i [] b h = absurd (cc h)
drop-at? zero (x ∷ l) b h = ap (λ t. t ∷ l) (cc h)
drop-at? (suc i) (x ∷ l) b h = drop-at? i l b h

past_end : (i : ℕ) (l : List ℕ) → at? i l ≡ none → (drop i l ≡ []) × (length l ≤ i)
past_end zero [] h = (refl, omega arith)
past_end (suc i) [] h = (refl, omega arith)
past_end zero (x ∷ l) h = absurd (cc h)
past_end (suc i) (x ∷ l) h = let (e, le) = past_end i l h in (e, omega arith)

read_row_skip :
    (i size : ℕ) (rest stream : List ℕ) (l : List (Option ℕ)) (after : List ℕ)
    → size ≤ i
    → read_row i rest stream ≡ (l, after)
    → read_row i (size ∷ rest) stream ≡ (none ∷ l, after)
unfolding read_row
read_row_skip i size rest stream l after h e = rw (not_below i size h, e) refl

read_row_take :
    (i size b : ℕ) (rest stream : List ℕ) (l : List (Option ℕ)) (after : List ℕ)
    → i < size
    → read_row i rest stream ≡ (l, after)
    → read_row i (size ∷ rest) (b ∷ stream) ≡ (some b ∷ l, after)
unfolding read_row
read_row_take i size b rest stream l after h e = rw (lt→ltb i size h, e) refl

-- A round that was written is read as the byte of each block.
read_row-row :
    (i : ℕ) (blocks : List (List ℕ)) (stream : List ℕ)
    → read_row i (map length blocks) (row i blocks ++ stream) ≡ (map (at? i) blocks, stream)
unfolding row
read_row-row i [] stream = unfold read_row in refl
read_row-row i (block ∷ blocks) stream = elim (Option-cases (at? i block)) [
  | inl e ↦
      rw (row, e)
        (read_row_skip i (length block) (map length blocks) (row i blocks ++ stream)
          (map (at? i) blocks) stream (past_end i block e).1 (read_row-row i blocks stream))
  | inr (b, e) ↦
      rw (row, e)
        (read_row_take i (length block) b (map length blocks) (row i blocks ++ stream)
          (map (at? i) blocks) stream (at?_bound i block b e) (read_row-row i blocks stream))
]

drop_past : (i : ℕ) (l : List ℕ) → length l ≤ i → drop i l ≡ []
drop_past i [] h = drop_nil i
  where
    drop_nil : (j : ℕ) → drop {A = ℕ} j [] ≡ []
    drop_nil zero = refl
    drop_nil (suc j) = refl
drop_past zero (x ∷ l) h = absurd (omega arith)
drop_past (suc i) (x ∷ l) h = drop_past i l (omega arith)

put_first-at? :
    (i : ℕ) (blocks : List (List ℕ))
    → put_first (map (at? i) blocks) (map (drop (suc i)) blocks) ≡ map (drop i) blocks
unfolding put_first
put_first-at? i [] = refl
put_first-at? i (block ∷ blocks) = elim (Option-cases (at? i block)) [
  | inl e ↦
      rw
        (e, (past_end i block e).0, drop_past (suc i) block (omega (arith, (past_end i block e).1)))
        (ap (λ l. [] ∷ l) (put_first-at? i blocks))
  | inr (b, e) ↦
      rw (e, drop-at? i block b e) (ap (λ l. (b ∷ drop (suc i) block) ∷ l) (put_first-at? i blocks))
]

all_read :
    (i : ℕ) (blocks : List (List ℕ))
    → longest blocks ≤ i
    → map (λ _. []) (map length blocks) ≡ map (drop i) blocks
unfolding longest
all_read i [] h = refl
all_read i (block ∷ blocks) h =
    rw (drop_past i block (omega arith)) (ap (λ l. [] ∷ l) (all_read i blocks (omega arith)))

-- The rounds give back what the blocks hold from i on.
read_rows-rows :
    (n i : ℕ) (blocks : List (List ℕ)) (stream : List ℕ)
    → longest blocks ≤ n + i
    → read_rows n i (map length blocks) (rows n i blocks ++ stream) ≡ map (drop i) blocks
unfolding rows read_rows
read_rows-rows zero i blocks stream h = all_read i blocks (omega arith)
read_rows-rows (suc n) i blocks stream h =
    rw (append_assoc, read_row-row i blocks (rows n (suc i) blocks ++ stream))
      (ap (λ l. put_first (map (at? i) blocks) l)
          (read_rows-rows n (suc i) blocks stream (omega arith))
        ∙ put_first-at? i blocks)

total : List ℕ → ℕ
total [] = 0
total (size ∷ rest) = size + total rest

total-append : (xs ys : List ℕ) → total (xs ++ ys) ≡ total xs + total ys
unfolding total
total-append [] ys = omega arith
total-append (x ∷ xs) ys = omega (arith, total-append xs ys)

total-replicate : (n size : ℕ) → total (replicate n size) ≡ n * size
unfolding total
total-replicate zero size = omega arith
total-replicate (suc n) size = grind (arith, total-replicate n size)

total-sizes : (gs : List Group) → total (sizes gs) ≡ sum_by (λ g. g.blocks * g.size) gs
unfolding sizes
total-sizes [] = unfold total in refl
total-sizes (g ∷ gs) = omega (
  arith,
  total-append (replicate g.blocks g.size) (sizes gs),
  total-replicate g.blocks g.size,
  total-sizes gs,
)

first_bytes-drop :
    (n : ℕ) (l : List ℕ)
    → n ≤ length l
    → (first_bytes n l ++ drop n l ≡ l) × (length (first_bytes n l) ≡ n)
unfolding first_bytes
first_bytes-drop zero l h = (refl, refl)
first_bytes-drop (suc n) [] h = absurd (omega arith)
first_bytes-drop (suc n) (b ∷ l) h =
    let (e, len) = first_bytes-drop n l (omega arith) in (ap (λ t. b ∷ t) e, omega arith)

cut_lem :
    (l bytes : List ℕ)
    → total l ≡ length bytes
    → (joined (cut l bytes) ≡ bytes) × (map length (cut l bytes) ≡ l)
unfolding cut joined total
cut_lem [] [] h = (refl, refl)
cut_lem [] (b ∷ bytes) h = absurd (omega arith)
cut_lem (size ∷ l) bytes h =
    let (whole, len) = first_bytes-drop size bytes (omega arith) in
    let (e, lens) = cut_lem l (drop size bytes) (omega (arith, length-drop size bytes)) in
    (
      ap (λ t. first_bytes size bytes ++ t) e ∙ whole,
      ap (λ t. t ∷ map length (cut l (drop size bytes))) len ∙ ap (λ t. size ∷ t) lens,
    )

longest-largest : (blocks : List (List ℕ)) → longest blocks ≡ largest (map length blocks)
unfolding longest largest
longest-largest [] = refl
longest-largest (block ∷ blocks) = ap (max (length block)) (longest-largest blocks)

map-drop_zero : (blocks : List (List ℕ)) → map (drop 0) blocks ≡ blocks
map-drop_zero [] = refl
map-drop_zero (block ∷ blocks) = ap (λ l. block ∷ l) (map-drop_zero blocks)

read_blocks :
    (l : List ℕ) (blocks : List (List ℕ)) (stream : List ℕ)
    → map length blocks ≡ l
    → read_rows (largest l) 0 l (rows (longest blocks) 0 blocks ++ stream) ≡ blocks
read_blocks l blocks stream h =
    subst (λ t. read_rows (largest t) 0 t (rows (longest blocks) 0 blocks ++ stream) ≡ blocks) h
      (subst
        (λ n. read_rows n 0 (map length blocks) (rows (longest blocks) 0 blocks ++ stream) ≡ blocks)
        (longest-largest blocks)
        (read_rows-rows (longest blocks) 0 blocks stream (omega arith) ∙ map-drop_zero blocks))

read_written :
    (p : Parameters) (bytes after : List ℕ)
    → data_bytes p ≡ length bytes
    → joined (
        read_rows
          (largest (sizes p.groups))
          0
          (sizes p.groups)
          (written p (cut (sizes p.groups) bytes) ++ after))
      ≡ bytes
unfolding written data_bytes
read_written p bytes after same =
    let (whole, lens) = cut_lem (sizes p.groups) bytes (total-sizes p.groups ∙ same) in
    let blocks = cut (sizes p.groups) bytes in
    let ecs = correction_rows p.ec 0 (map (λ block. correction block p.ec) blocks) in
    ap (λ l. joined (read_rows (largest (sizes p.groups)) 0 (sizes p.groups) l))
      (append_assoc (rows (longest blocks) 0 blocks) ecs after)
    ∙ ap joined (read_blocks (sizes p.groups) blocks (ecs ++ after) lens)
    ∙ whole

-- When the data fill the version's capacity, `przeplec` succeeds, and a reader that deals the bytes
-- out to the blocks again, round by round, finds the data in order, whatever
-- follows the codewords.
pub separate-interleave :
    (bytes : List ℕ) (v : ℕ)
    → capacity v ≡ some (length bytes)
    → (stream : List ℕ) × (interleave bytes v ≡ some stream)
      × ((after : List ℕ) → separate (stream ++ after) v ≡ some bytes)
unfolding interleave separate capacity
separate-interleave bytes v h = elim (Option-cases (parameters v)) [
  | inl e ↦ absurd (cc (rw (capacity, e) at h))
  | inr (p, e) ↦ (
    written p (cut (sizes p.groups) bytes),
    rw (interleave, e) refl,
    λ after. rw (separate, e) (ap some (read_written p bytes after (cc (rw (capacity, e) at h)))),
  )
]
