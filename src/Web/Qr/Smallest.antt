-- ===== src/Web/Qr/Smallest.antt =====
-- web/src/lib/qr.ts, `dobierzWersje`: the version that is chosen.
use mekamb_chat.Common.{ℕ, zero, suc, ◌+◌, ◌≤◌, ◌<◌, ◌≡◌, ◌↔◌, arith, leb}
use mekamb_chat.Common.{
  Option-cases, subst, ◌==◌, ==_iff, some, true, is_some, Bool-cases, inl, inr,
}
use mekamb_chat.Common.{leb→le}
use mekamb_chat.Web.Qr.Versions.{
  parameters, data_bytes, capacity, needed, choose_from, choose_version,
}

-- What the source's test says of a version and a number of bytes.
unfoldable pub Fits : ℕ → ℕ → Type 0
Fits v n = (room : ℕ) × (capacity v ≡ some room) × (needed v n ≤ room)

module _ (v n room : ℕ) (e : capacity v ≡ some room) where
  room_bound : Fits v n → needed v n ≤ room
  unfolding Fits
  room_bound (x, c, le) = let same : room ≡ x = cc (e, c) in rw same le

  -- Above a version that is too small, the smallest that fits is the smallest that fits at all.
  skip_version :
      (w : ℕ)
      → room < needed v n
      → ((u : ℕ) → suc v ≤ u → u < w → ¬ Fits u n)
      → (u : ℕ) → v ≤ u
      → u < w
      → ¬ Fits u n
  skip_version w small above u lo hi f = elim (Bool-cases (u == v)) [
    | inl same ↦ omega (arith, room_bound (subst (λ x. Fits x n) ((==_iff u v).0 same) f))
    | inr other ↦ above u (ground arith) hi f
  ]

choose_from_lem :
    (k v n w : ℕ)
    → choose_from k v n ≡ some w
    → (v ≤ w) × (w < v + k) × Fits w n × ((u : ℕ) → v ≤ u → u < w → ¬ Fits u n)
unfolding choose_from Fits
choose_from_lem zero v n w h = absurd (cc h)
choose_from_lem (suc k) v n w h = elim (Option-cases (capacity v)) [
  | inl e ↦ absurd (cc (rw (choose_from, e) at h))
  | inr (room, e) ↦ elim (Bool-cases (leb (needed v n) room)) [
    | inl fits ↦
        let same : v ≡ w = cc (rw (choose_from, e, fits) at h) in
        subst (λ x. (v ≤ x) × (x < v + suc k) × Fits x n × ((u : ℕ) → v ≤ u → u < x → ¬ Fits u n))
          same
          (omega arith, omega arith, (room, e, leb→le _ _ fits), λ u lo hi. absurd (omega arith))
    | inr small ↦
        let (lo, hi, fits, least) =
          choose_from_lem k (suc v) n w (rw (choose_from, e, small) at h) in
        (omega arith, omega arith, fits, skip_version v n room e w (ground arith) least)
  ]
]

-- The version that `dobierzWersje` returns is one of 1 to 10, the bytes with their header fit in it,
-- and they fit in no smaller version.
pub choose_version_lem :
    (n w : ℕ)
    → choose_version n ≡ some w
    → (1 ≤ w) × (w ≤ 10) × Fits w n × ((u : ℕ) → 1 ≤ u → u < w → ¬ Fits u n)
unfolding choose_version
choose_version_lem n w h =
    let (lo, hi, fits, least) = choose_from_lem 10 1 n w h in (lo, omega arith, fits, least)

-- `dobierzWersje` finds a version for every number of bytes up to 213, and for no other.
pub choose_version_bound : (n : ℕ) → (is_some (choose_version n) ≡ true) ↔ (n ≤ 213)
unfolding choose_version choose_from capacity parameters needed data_bytes
choose_version_bound n = ground (arith, needed)
