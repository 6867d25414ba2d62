-- ===== src/Server/RateLimit/Throughput.antt =====
-- How many calls the token bucket lets through (server/src/ratelimit.ts).
use mekamb_chat.Common.{
  ℕ, ◌+◌, ◌-◌, ◌*◌, ◌≤◌, ◌≡◌, ap, String, Bool-cases, inl, inr, Option, none, some, List, [], ◌∷◌,
  arith, ltb, if◌then◌else◌, text_discrete,
}
use native.Mathlib.Nat.{mul-le-mul_right}
use mekamb_chat.Common.Keyed
use mekamb_chat.Server.RateLimit.{Rate, Bucket, Buckets, unit, full, refilled, consume}

-- The calls of one key at the given times, and how many are allowed.
unfoldable pub allowed_count : Buckets → String → Rate → List ℕ → ℕ
allowed_count t key r [] = 0
allowed_count t key r (now ∷ ts) =
    (if (consume t key r now).1.allowed then 1 else 0)
    + allowed_count (consume t key r now).0 key r ts

-- The times rise from `start` to `stop`.
abbrev pub Rising : ℕ → List ℕ → ℕ → Type 0
Rising start [] stop = start ≤ stop
Rising start (now ∷ ts) stop = (start ≤ now) × Rising now ts stop

refilled_grows :
    (r : Rate) (row : Option Bucket) (start now : ℕ)
    → start ≤ now
    → refilled r row now ≤ refilled r row start + (now - start) * r.refill
unfolding refilled
refilled_grows r none start now h = grind arith
refilled_grows r (some b) start now h =
    let steps : now - b.updated_at ≤ start - b.updated_at + (now - start) = omega arith in
    omega (arith, mul-le-mul_right r.refill steps)

Rising-le : (start stop : ℕ) (ts : List ℕ) → Rising start ts stop → start ≤ stop
Rising-le start stop [] h = h
Rising-le start stop (now ∷ ts) h = omega (arith, Rising-le now stop ts h.1)

refilled_now :
    (r : Rate) (now p : ℕ) → refilled r (some (record { parts = p; updated_at = now })) now ≤ p
unfolding refilled
refilled_now r now p = grind arith

-- An allowed call takes one token.
consume_takes :
    (t : Buckets) (key : String) (r : Rate) (now : ℕ)
    → (if (consume t key r now).1.allowed then 1 else 0) * unit r
        + refilled r (Keyed.get text_discrete key (consume t key r now).0) now
      ≤ refilled r (Keyed.get text_discrete key t) now
unfolding consume
consume_takes t key r now =
    elim (Bool-cases (ltb (refilled r (Keyed.get text_discrete key t) now) (unit r))) [
      | inl e ↦ rw e (omega arith)
      | inr e ↦
          rw (e, Keyed.get-set_self text_discrete key _ t)
            (ground
              (arith, refilled_now r now (refilled r (Keyed.get text_discrete key t) now - unit r)))
    ]

allowed_count-le :
    (t : Buckets) (key : String) (r : Rate) (start stop : ℕ) (ts : List ℕ)
    → Rising start ts stop
    → allowed_count t key r ts * unit r
      ≤ refilled r (Keyed.get text_discrete key t) start + (stop - start) * r.refill
unfolding allowed_count
allowed_count-le t key r start stop [] h = omega arith
allowed_count-le t key r start stop (now ∷ ts) h =
    let c = (consume t key r now).0 in
    let apart : stop - start ≡ stop - now + (now - start) =
      omega (arith, Rising-le now stop ts h.1, h.0) in
    omega (
      arith,
      ap (λ m. m * r.refill) apart,
      consume_takes t key r now,
      allowed_count-le c key r now stop ts h.1,
      refilled_grows r (Keyed.get text_discrete key t) start now h.0,
    )

-- Over any calls of one key at rising times, those allowed are no more than the bucket's capacity
-- and what is refilled from the first time to the last (both sides counted in parts of a token).
pub throughput :
    (t : Buckets) (key : String) (r : Rate) (start stop : ℕ) (ts : List ℕ)
    → Rising start ts stop
    → allowed_count t key r ts * unit r ≤ full r + (stop - start) * r.refill
unfolding refilled
throughput t key r start stop ts h = omega (arith, allowed_count-le t key r start stop ts h)
