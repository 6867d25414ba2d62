-- ===== src/Web/Qr/Interleave.antt =====
-- web/src/lib/qr.ts, `przeplec`: blocks, their correction bytes, and the order they are written in.
use mekamb_chat.Common.{ℕ, zero, suc, max, length, drop, map}
use mekamb_chat.Common.{Option, get_or_else, some, none, List, [], ◌∷◌, ◌++◌}
use mekamb_chat.Common.Arrays.{at?, replicate}
use mekamb_chat.Web.Qr.Versions.{Group, Parameters, parameters}
use mekamb_chat.Web.Qr.Stream.{first_bytes}
use mekamb_chat.Web.Qr.Correction.{correction}

-- The sizes of the blocks, group by group.
unfoldable pub sizes : List Group → List ℕ
sizes [] = []
sizes (g ∷ gs) = replicate g.blocks g.size ++ sizes gs

-- `dane.subarray(pozycja, pozycja + dlugosc)` for each of them, on what is left of the data.
unfoldable pub cut : List ℕ → List ℕ → List (List ℕ)
cut [] bytes = []
cut (size ∷ rest) bytes = first_bytes size bytes ∷ cut rest (drop size bytes)

-- One round of the loops that write: byte i of every block that has one.
unfoldable pub row : ℕ → List (List ℕ) → List ℕ
row i [] = []
row i (block ∷ blocks) = elim (at? i block) [ none ↦ row i blocks | some b ↦ b ∷ row i blocks ]

-- The loop over i with n rounds to go.
unfoldable pub rows : ℕ → ℕ → List (List ℕ) → List ℕ
rows zero i blocks = []
rows (suc n) i blocks = row i blocks ++ rows n (suc i) blocks

-- `Math.max(...blokiDanych.map((b) => b.length))`
unfoldable pub longest : List (List ℕ) → ℕ
longest [] = 0
longest (block ∷ blocks) = max (length block) (longest blocks)

-- Byte i of the correction of every block, `blok[i] ?? 0`.
unfoldable pub correction_rows : ℕ → ℕ → List (List ℕ) → List ℕ
correction_rows zero i blocks = []
correction_rows (suc n) i blocks =
    map (λ block. get_or_else (at? i block) 0) blocks ++ correction_rows n (suc i) blocks

unfoldable pub written : Parameters → List (List ℕ) → List ℕ
written p blocks =
    rows (longest blocks) 0 blocks
    ++ correction_rows p.ec 0 (map (λ block. correction block p.ec) blocks)

-- `przeplec`; none stands for the exception of `parametry`.
unfoldable pub interleave : List ℕ → ℕ → Option (List ℕ)
interleave bytes v = elim (parameters v) [
  | none ↦ none
  | some p ↦ some (written p (cut (sizes p.groups) bytes))
]
