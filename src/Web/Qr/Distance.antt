-- ===== src/Web/Qr/Distance.antt =====
-- web/src/lib/qr.ts, `infoFormatu` and `infoWersji`: how far apart the words are.
use mekamb_chat.Common.{ℕ, zero, suc, ◌+◌, ◌/◌, ◌%◌, ◌≤◌, ◌<◌, ◌≡◌, ◌≢◌, refl, arith}
use mekamb_chat.Common.{true, ◌||◌, ◌==◌, leb, if◌then◌else◌}
use mekamb_chat.Common.Bits.{descending, all_below, table_row}
use mekamb_chat.Web.Qr.Information.{
  format_information, format_remainder, version_information, version_remainder,
}

-- In how many of the lowest n bits two numbers differ.
unfoldable pub distance : ℕ → ℕ → ℕ → ℕ
distance zero a b = 0
distance (suc n) a b = (if a % 2 == b % 2 then 0 else 1) + distance n (a / 2) (b / 2)

format_table :
    all_below 8 (λ a.
      all_below 8
        (λ b. (a == b) || leb 5 (distance 15 (format_information a) (format_information b))))
    ≡ true
unfolding all_below descending distance format_information format_remainder
format_table = refl

version_table :
    all_below 4 (λ a. all_below 4 (λ b.
      (a == b) || leb 8 (distance 18 (version_information (a + 7)) (version_information (b + 7)))))
    ≡ true
unfolding all_below descending distance version_information version_remainder
version_table = refl

from_test : (n a b d : ℕ) → a ≢ b → ((a == b) || leb n d) ≡ true → n ≤ d
from_test n a b d other h = ground arith

-- The format words of two different masks differ in at least five of their fifteen bits, and the
-- version words of two different versions from 7 to 10 in at least eight of their eighteen.
pub information_apart :
    (a b : ℕ)
    → a ≢ b
    → (a < 8 → b < 8 → 5 ≤ distance 15 (format_information a) (format_information b))
      × (a < 4
          → b < 4
          → 8 ≤ distance 18 (version_information (a + 7)) (version_information (b + 7)))
information_apart a b other = (
  λ ha hb. from_test 5 a b _ other (table_row 8 _ b (table_row 8 _ a format_table ha) hb),
  λ ha hb. from_test 8 a b _ other (table_row 4 _ b (table_row 4 _ a version_table ha) hb),
)
