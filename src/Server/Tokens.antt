-- ===== src/Server/Tokens.antt =====
-- Tokens for anonymous sending (server/src/tokeny.ts, table `spent_tokens`).
use mekamb_chat.Common.{
  ℕ, ◌+◌, ◌-◌, ◌*◌, ◌/◌, ◌%◌, ◌==◌, ◌&&◌, Bool, true, false, not, Option, none, some, List, [], ◌∷◌,
  ◌++◌, map, if◌then◌else◌, ltb, any, filter,
}
pub mod Spending

-- A row of `spent_tokens`: the seed in hexadecimal, and when.
pub record Spent : Type 0 where
  pub seed : List ℕ
  pub spent_at : ℕ

-- `WynikRealizacji`
pub data Redeemed : Type 0 where
  ok invalid spent : Redeemed

abbrev pub window_ms : ℕ
window_ms = 30 * 24 * 60 * 60 * 1000

abbrev pub bytes_eqb : List ℕ → List ℕ → Bool
bytes_eqb [] [] = true
bytes_eqb [] (y ∷ ys) = false
bytes_eqb (x ∷ xs) [] = false
bytes_eqb (x ∷ xs) (y ∷ ys) = (x == y) && bytes_eqb xs ys

-- Two digits of a byte, `b.toString(16).padStart(2, "0")`.
abbrev pub hex_digit : ℕ → ℕ
hex_digit n = if ltb n 10 then 48 + n else 87 + n

unfoldable pub to_hex : List ℕ → List ℕ
to_hex [] = []
to_hex (b ∷ bs) = hex_digit (b / 16) ∷ hex_digit (b % 16) ∷ to_hex bs

-- INSERT OR IGNORE: the table, and whether it has a new row.
unfoldable pub insert_or_ignore : Spent → List Spent → List Spent × Bool
insert_or_ignore row rows =
    if any (λ r. bytes_eqb r.seed row.seed) rows then (rows, false) else (rows ++ row ∷ [], true)

-- `zrealizuj`. `verify` is the check of the token under the issuing key; `none` is an exception.
unfoldable pub redeem :
    (List ℕ → List ℕ → Option Bool) → List Spent → List ℕ → List ℕ → ℕ → List Spent × Redeemed
unfolding insert_or_ignore to_hex
redeem verify rows seed unblinded now = elim (verify seed unblinded) [
  | none ↦ (rows, invalid)
  | some false ↦ (rows, invalid)
  | some true ↦
      let (t, inserted) = insert_or_ignore (record { seed = to_hex seed; spent_at = now }) rows in
      (t, if inserted then ok else spent)
]

-- `posprzataj`: DELETE … WHERE spent_at < ?; where that limit is below 0, it deletes nothing.
unfoldable pub clean_up : ℕ → List Spent → List Spent
clean_up now rows = filter (λ r. not (ltb r.spent_at (now - window_ms))) rows
