-- ===== src/Server/RateLimit.antt =====
-- The token bucket, the Durable Object `RateLimiter` (server/src/ratelimit.ts). The source counts
-- tokens in floating point; here a token is `unit` equal parts, so that a refill of
-- `refill / per` tokens a second gives `refill` parts a millisecond and all amounts are exact.
pub mod Calls
pub mod Throughput
use mekamb_chat.Common.{
  ℕ, suc, ◌+◌, ◌-◌, ◌*◌, ◌/◌, min, String, Bool, true, false, Option, List, ltb, if◌then◌else◌,
  get_or_else, text_discrete,
}
use mekamb_chat.Common.Keyed

-- The arguments `capacity` and `refillPerSecond`, the latter as the fraction `refill / per`.
pub record Rate : Type 0 where
  pub capacity : ℕ
  pub refill : ℕ
  pub per : ℕ

-- A row of `bucket`, without its key.
pub record Bucket : Type 0 where
  pub parts : ℕ
  pub updated_at : ℕ

pub record Verdict : Type 0 where
  pub allowed : Bool
  pub retry_after_ms : ℕ

-- One token, in parts.
abbrev pub unit : Rate → ℕ
unit r = 1000 * r.per

abbrev pub full : Rate → ℕ
full r = r.capacity * unit r

-- `Math.ceil(a / b)`
abbrev pub ceil_div : ℕ → ℕ → ℕ
ceil_div a b = (a + b - 1) / b

-- What the bucket holds at `now`; a clock that went back adds nothing.
unfoldable pub refilled : Rate → Option Bucket → ℕ → ℕ
refilled r row now =
    let b = get_or_else row (record { parts = full r; updated_at = now }) in
    min (full r) (b.parts + (now - b.updated_at) * r.refill)

abbrev pub Buckets : Type 0
Buckets = List (String × Bucket)

-- `consume`
unfoldable pub consume : Buckets → String → Rate → ℕ → Buckets × Verdict
consume t key r now =
    let held = refilled r (Keyed.get text_discrete key t) now in
    if ltb held (unit r)
    then (t, record { allowed = false; retry_after_ms = ceil_div (unit r - held) r.refill })
    else (
      Keyed.set text_discrete key (record { parts = held - unit r; updated_at = now }) t,
      record { allowed = true; retry_after_ms = 0 },
    )

-- `reset`
unfoldable pub reset : Buckets → String → Buckets
reset t key = Keyed.delete text_discrete key t
