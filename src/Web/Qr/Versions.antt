-- ===== src/Web/Qr/Versions.antt =====
-- web/src/lib/qr.ts: the table BLOKI, `parametry`, `pojemnosc` and `dobierzWersje`.
use mekamb_chat.Common.{ℕ, zero, suc, ◌+◌, ◌*◌, ◌/◌, leb, ltb}
use mekamb_chat.Common.{Option, some, none, List, [], ◌∷◌, sum_by, if◌then◌else◌}
use mekamb_chat.Common.Arrays.{at?}

-- A group: so many blocks of so many data bytes.
pub record Group : Type 0 where
  pub blocks : ℕ
  pub size : ℕ

pub record Parameters : Type 0 where
  pub ec : ℕ
  pub groups : List Group

abbrev group : ℕ → ℕ → Group
group n size = record { blocks = n; size = size }

abbrev one_group : ℕ → ℕ → ℕ → Parameters
one_group ec n size = record { ec = ec; groups = group n size ∷ [] }

abbrev two_groups : ℕ → ℕ → ℕ → ℕ → ℕ → Parameters
two_groups ec n size m other = record { ec = ec; groups = group n size ∷ group m other ∷ [] }

-- `BLOKI`
abbrev pub block_table : List Parameters
block_table =
    one_group 10 1 16
    ∷ one_group 16 1 28
    ∷ one_group 26 1 44
    ∷ one_group 18 2 32
    ∷ one_group 24 2 43
    ∷ one_group 16 4 27
    ∷ one_group 18 4 31
    ∷ two_groups 22 2 38 2 39
    ∷ two_groups 22 3 36 2 37
    ∷ two_groups 26 4 43 1 44
    ∷ []

-- `parametry`; it throws for a version outside the table.
unfoldable pub parameters : ℕ → Option Parameters
parameters zero = none
parameters (suc v) = at? v block_table

unfoldable pub data_bytes : Parameters → ℕ
data_bytes p = sum_by (λ g. g.blocks * g.size) p.groups

-- `pojemnosc`
unfoldable pub capacity : ℕ → Option ℕ
capacity v = elim (parameters v) [ none ↦ none | some p ↦ some (data_bytes p) ]

-- `wersja < 10 ? 8 : 16`, the bits of the length, and 4 of the mode before them.
abbrev pub length_bits : ℕ → ℕ
length_bits v = if ltb v 10 then 8 else 16

abbrev header_bits : ℕ → ℕ
header_bits v = if ltb v 10 then 12 else 20

-- `Math.ceil((naglowek + ileBajtow * 8) / 8)`
unfoldable pub needed : ℕ → ℕ → ℕ
needed v n = (header_bits v + n * 8 + 7) / 8

-- The loop of `dobierzWersje` with k rounds to go.
unfoldable pub choose_from : ℕ → ℕ → ℕ → Option ℕ
choose_from zero v n = none
choose_from (suc k) v n =
    let rest = choose_from k (suc v) n in
    elim (capacity v) [ none ↦ none | some room ↦ if leb (needed v n) room then some v else rest ]

-- `dobierzWersje`; none stands for the exception.
unfoldable pub choose_version : ℕ → Option ℕ
choose_version n = choose_from 10 1 n
