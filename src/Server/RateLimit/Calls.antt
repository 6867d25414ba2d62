-- ===== src/Server/RateLimit/Calls.antt =====
-- One call of the token bucket (server/src/ratelimit.ts).
use native.Mathlib.Nat.{div-add-mod, div-mul-le_self, mod-lt, mul-le-mul_right, le_trans}
use mekamb_chat.Common.{
  ℕ, suc, ◌+◌, ◌-◌, ◌*◌, ◌≤◌, ◌<◌, min, ◌≡◌, ◌≢◌, refl, String, true, false, leb, leb→le, le→leb,
  ltb→lt, sym, Bool-cases, inl, inr, Option, none, some, arith, ltb, text_discrete,
}
use mekamb_chat.Common.Keyed
use mekamb_chat.Server.RateLimit.{
  Rate, Bucket, Buckets, unit, full, ceil_div, refilled, consume, reset,
}

-- The state of one key after a call: a refusal writes nothing, and no call touches another key.
pub consume_frame :
    (t : Buckets) (key other : String) (r : Rate) (now : ℕ)
    → ((consume t key r now).1.allowed ≡ false → (consume t key r now).0 ≡ t)
      × (key ≢ other
          → Keyed.get text_discrete other (consume t key r now).0 ≡ Keyed.get text_discrete other t)
unfolding consume
consume_frame t key other r now =
    elim (Bool-cases (ltb (refilled r (Keyed.get text_discrete key t) now) (unit r))) [
      | inl e ↦ rw e ((λ _. refl), (λ _. refl))
      | inr e ↦ rw e ((λ h. cc), (λ h. Keyed.get-set_ne text_discrete key other _ t h))
    ]

ceil_div_reaches : (a b : ℕ) → 0 < b → a ≤ ceil_div a b * b
ceil_div_reaches a b h = omega (arith, div-add-mod (a + b - 1) b, mod-lt (a + b - 1) h)

ceil_div_least : (a b w : ℕ) → 0 < b → w < ceil_div a b → w * b < a
ceil_div_least a b w h k =
    omega
      (arith, div-mul-le_self (a + b - 1) b, mul-le-mul_right {m = suc w} {n = ceil_div a b} b k)

ceil_div-le_iff : (a b w : ℕ) → 0 < b → leb (ceil_div a b) w ≡ leb a (w * b)
ceil_div-le_iff a b w h = elim (Bool-cases (leb (ceil_div a b) w)) [
  | inl e ↦ rw e (
      sym (
        le→leb a (w * b) (
          le_trans (ceil_div_reaches a b h)
            (mul-le-mul_right {m = ceil_div a b} {n = w} b (leb→le _ _ e)))))
  | inr e ↦ rw e (ground (arith, ceil_div_least a b w h))
]

-- The row was written no later than `now`.
abbrev pub Stamped : Option Bucket → ℕ → Type 0
Stamped none now = Unit {0}
Stamped (some b) now = b.updated_at ≤ now

-- A bucket that is short of a token holds `w * refill` parts more after `w` ms.
refilled_later :
    (r : Rate) (row : Option Bucket) (now w : ℕ)
    → 0 < r.capacity
    → Stamped row now
    → refilled r row now < unit r
    → refilled r row (now + w) ≡ min (full r) (refilled r row now + w * r.refill)
unfolding refilled
refilled_later r none now w c h k = absurd (grind arith)
refilled_later r (some b) now w c h k =
    let apart : now + w - b.updated_at ≡ now - b.updated_at + w = omega arith in
    rw apart (grind arith)

unit-le-full : (r : Rate) → 0 < r.capacity → unit r ≤ full r
unit-le-full r h = grind arith

-- `retryAfterMs` of a refusal is exact: with no call in between, the same call is allowed `w` ms
-- later just if `w` is at least that long. The capacity and the refill are positive, and the row
-- was not written at a later time.
pub retry_after_exact :
    (t : Buckets) (key : String) (r : Rate) (now w : ℕ)
    → 0 < r.capacity
    → 0 < r.refill
    → Stamped (Keyed.get text_discrete key t) now
    → (consume t key r now).1.allowed ≡ false
    → (consume t key r (now + w)).1.allowed ≡ leb (consume t key r now).1.retry_after_ms w
unfolding consume
retry_after_exact t key r now w c f st refused =
    rw
      (
        short,
        refilled_later r (Keyed.get text_discrete key t) now w c st (ltb→lt _ _ short),
        ceil_div-le_iff (unit r - refilled r (Keyed.get text_discrete key t) now) r.refill w f,
      )
      (ground (arith, unit-le-full r c))
  where
    short : ltb (refilled r (Keyed.get text_discrete key t) now) (unit r) ≡ true
    short = ground arith

-- After `reset` the key has a full bucket: where the capacity is positive, the next call is allowed,
-- at any time.
pub reset_allows :
    (t : Buckets) (key : String) (r : Rate) (now : ℕ)
    → 0 < r.capacity
    → (consume (reset t key) key r now).1.allowed ≡ true
unfolding consume reset refilled
reset_allows t key r now c =
    rw (Keyed.get-delete_self text_discrete key t) (ground (arith, unit-le-full r c))
