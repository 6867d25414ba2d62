-- ===== src/Tests/Qr.antt =====
-- Runs of the QR encoder (web/src/lib/qr.ts).
use mekamb_chat.Common.{ℕ, ◌+◌, ◌≡◌, refl, arith, List, [], ◌∷◌, length, All, some}
use mekamb_chat.Web.Qr.Field.{times}
use mekamb_chat.Web.Qr.Multiplication.{shift_and_add, times-shift_and_add}
use mekamb_chat.Web.Qr.Correction.{correction}
use mekamb_chat.Web.Qr.Roots.{IsByte}
use mekamb_chat.Web.Qr.Codeword.{correction_codeword}
use mekamb_chat.Web.Qr.Versions.{
  parameters, data_bytes, capacity, needed, choose_from, choose_version,
}
use mekamb_chat.Web.Qr.Stream.{aligned}
use mekamb_chat.Web.Qr.Alignment.{aligned_ends}
use mekamb_chat.Web.Qr.Scanning.{decode, decode-matrix_of}
use mekamb_chat.Web.Qr.Penalty.{matrix}
use mekamb_chat.Web.Qr.Best.{matrix_least}

-- The text "ala".
abbrev text : List ℕ
text = 97 ∷ 108 ∷ 97 ∷ []

text-IsByte : All IsByte text
text-IsByte = omega arith

-- Sixteen data bytes, as many as version 1 has.
abbrev data_block : List ℕ
data_block =
    64 ∷ 54 ∷ 22 ∷ 198 ∷ 16 ∷ 236 ∷ 17 ∷ 236 ∷ 17 ∷ 236 ∷ 17 ∷ 236 ∷ 17 ∷ 236 ∷ 17 ∷ 236 ∷ []

text_version : choose_version 3 ≡ some 1
unfolding choose_version choose_from capacity parameters data_bytes needed
text_version = refl

full_block : capacity 1 ≡ some 16
unfolding capacity parameters data_bytes
full_block = refl

times-shift_and_add_example : times 87 131 ≡ shift_and_add 8 87 131
times-shift_and_add_example = times-shift_and_add 87 131 (omega arith) (omega arith)

correction_codeword_example : length (correction data_block 10) ≡ 10
correction_codeword_example = (correction_codeword data_block 10 (omega arith) (omega arith)).0

aligned_ends_example : aligned (2 + 7) (1 ∷ 0 ∷ 1 ∷ []) ≡ aligned 7 (1 ∷ 0 ∷ 1 ∷ [])
aligned_ends_example = (aligned_ends (1 ∷ 0 ∷ 1 ∷ []) 2).0

decode-matrix_of_example :
    decode (decode-matrix_of text 3 (omega arith) text-IsByte (omega arith)).1 ≡ some text
decode-matrix_of_example = (decode-matrix_of text 3 (omega arith) text-IsByte (omega arith)).4

matrix_least_example : matrix text ≡ some (matrix_least text text-IsByte (omega arith)).0
matrix_least_example = (matrix_least text text-IsByte (omega arith)).1
