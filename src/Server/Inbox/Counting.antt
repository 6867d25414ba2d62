-- ===== src/Server/Inbox/Counting.antt =====
-- The aggregate query of `sprzatnij` (server/src/inbox.ts) against its meaning.
use mekamb_chat.Common.{
  ℕ, ◌+◌, ◌≤◌, ◌≡◌, refl, String, Bool, false, not, ◌&&◌, ◌||◌, List, [], ◌∷◌, arith, leb, ◌==◌,
  if◌then◌else◌, text_eqb, all, count, sum_by,
}
use mekamb_chat.Server.Inbox.{Device, Read, has_read, is_live, live_reads}

abbrev pub UniqueReads : List Read → Type 0
UniqueReads [] = Unit {0}
UniqueReads (r ∷ rs) = (has_read r.reader r.envelope_id rs ≡ false) × UniqueReads rs

abbrev matches : String → ℕ → Read → Bool
matches d i r = text_eqb r.reader d && r.envelope_id == i

-- One device's part of the group.
abbrev part : (Device → Bool) → ℕ → List Read → Device → ℕ
part live i rs u = if live u then count (matches u.device_id i) rs else 0

module _ (live : Device → Bool) (i : ℕ) where
  part_none : (us : List Device) → sum_by (part live i []) us ≡ 0
  part_none [] = refl
  part_none (u ∷ us) = ground (arith, part_none us)

  part_cons :
      (r : Read) (rs : List Read) (us : List Device)
      → sum_by (part live i (r ∷ rs)) us
        ≡ (if r.envelope_id == i
            then count (λ u. text_eqb u.device_id r.reader && live u) us
            else 0)
          + sum_by (part live i rs) us
  part_cons r rs [] = ground arith
  part_cons r rs (u ∷ us) = ground (arith, part_cons r rs us)

  -- The join may be summed by reads or by devices.
  group_by_device :
      (us : List Device) (rs : List Read)
      → sum_by
          (λ r.
            if r.envelope_id == i
            then count (λ u. text_eqb u.device_id r.reader && live u) us
            else 0)
          rs
        ≡ sum_by (part live i rs) us
  group_by_device us [] = omega (arith, part_none us)
  group_by_device us (r ∷ rs) = omega (arith, part_cons r rs us, group_by_device us rs)

  -- No pair stands in the table twice.
  count-matches :
      (d : String) (rs : List Read)
      → UniqueReads rs
      → count (matches d i) rs ≡ (if has_read d i rs then 1 else 0)
  count-matches d [] h = refl
  count-matches d (r ∷ rs) h = ground (arith, count-matches d rs h.1)

  part-le :
      (rs : List Read) (us : List Device)
      → UniqueReads rs
      → sum_by (part live i rs) us ≤ count live us
  part-le rs [] h = omega arith
  part-le rs (u ∷ us) h = ground (arith, part-le rs us h, count-matches u.device_id rs h)

  part-all :
      (rs : List Read) (us : List Device)
      → UniqueReads rs
      → leb (count live us) (sum_by (part live i rs) us)
        ≡ all (λ u. not (live u) || has_read u.device_id i rs) us
  part-all rs [] h = refl
  part-all rs (u ∷ us) h =
      ground (arith, part-all rs us h, part-le rs us h, count-matches u.device_id rs h)

-- Every device that counts has read the envelope.
abbrev pub everyone_read : ℕ → List Device → List Read → ℕ → Bool
everyone_read now us rs i = all (λ u. not (is_live now u) || has_read u.device_id i rs) us

pub live_reads-everyone :
    (now : ℕ) (us : List Device) (rs : List Read) (i : ℕ)
    → UniqueReads rs
    → leb (count (is_live now) us) (live_reads now us rs i) ≡ everyone_read now us rs i
live_reads-everyone now us rs i h =
    rw (group_by_device (is_live now) i us rs) (part-all (is_live now) i rs us h)
