-- ===== src/Server/Relay.antt =====
-- The order of group commits, the Durable Object `GroupRelay` (server/src/group.ts).
pub mod Order
use mekamb_chat.Common.{
  ℕ, suc, ◌+◌, Bool, true, false, Option, none, some, ◌==◌, if◌then◌else◌, get_or_else,
}

-- The row `epoch` of the table `state`; no row before the first accepted claim.
pub record Relay : Type 0 where
  pub epoch_row : Option ℕ

pub record Claim : Type 0 where
  pub accepted : Bool
  pub epoch : ℕ

unfoldable pub epoch : Relay → ℕ
epoch r = get_or_else r.epoch_row 0

unfoldable pub claim_epoch : Relay → ℕ → Relay × Claim
unfolding epoch
claim_epoch r expected =
    if epoch r == expected
    then (
      record { epoch_row = some (epoch r + 1) },
      record { accepted = true; epoch = epoch r + 1 },
    )
    else (r, record { accepted = false; epoch = epoch r })
