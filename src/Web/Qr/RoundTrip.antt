-- ===== src/Web/Qr/RoundTrip.antt =====
-- web/src/lib/qr.ts, `ulozDane`: reading the stream back.
use mekamb_chat.Common.{ℕ, ◌+◌, ◌-◌, ◌*◌, ◌/◌, ◌%◌, ◌^◌, min}
use mekamb_chat.Common.{
  ◌≡◌, refl, sym, ap, ◌∙◌, ◌≤◌, ◌<◌, arith, length, length-append, All, All-append,
}
use mekamb_chat.Common.{some, List, [], ◌∷◌, ◌++◌}
use mathlib.Core.List.{append_assoc}
use native.Mathlib.Nat.{mod-eq_of_lt}
use mekamb_chat.Web.Qr.Versions.{capacity, needed, length_bits, choose_version}
use mekamb_chat.Web.Qr.Smallest.{Fits, choose_version_bound, choose_version_lem}
use mekamb_chat.Web.Qr.Stream.{
  to_bits, bits_of, content, terminated, aligned, to_bytes, filling, laid, lay_data,
}
use mekamb_chat.Web.Qr.Reading.{read_number, read_bytes, read_data, read_number-to_bits}
use mekamb_chat.Web.Qr.Filling.{
  IsBit, to_bits-IsBit, length-to_bits, bits_of-IsBit, length-bits_of, bits_of-append,
}
use mekamb_chat.Web.Qr.Filling.{
  bits_of-to_bytes, length-to_bytes, to_bytes-IsByte, filling-IsByte, length-filling,
  first_bytes_all, Aligned, aligned_lem,
}

abbrev IsByte : ℕ → Type 0
IsByte b = b < 256

-- A number below 2 ^ n is read back from its n bits.
read_small :
    (n v : ℕ) (rest : List ℕ) → v < 2 ^ n → read_number n 0 (to_bits n v ++ rest) ≡ some (v, rest)
read_small n v rest h =
    read_number-to_bits n 0 v rest
    ∙ ap (λ t. some (t, rest)) (omega (arith, mod-eq_of_lt {n = v} {m = 2 ^ n} h))

read_bytes_lem :
    (bs rest : List ℕ) → All IsByte bs → read_bytes (length bs) (bits_of bs ++ rest) ≡ some bs
unfolding read_bytes bits_of
read_bytes_lem [] rest h = refl
read_bytes_lem (b ∷ bs) rest (hb, h) =
    rw (append_assoc, read_small 8 b (bits_of bs ++ rest) hb, read_bytes_lem bs rest h) refl

length-content :
    (bytes : List ℕ) (v : ℕ) → length (content bytes v) ≡ 4 + length_bits v + length bytes * 8
unfolding content
length-content bytes v = omega (
  arith,
  length-append (to_bits 4 4) (to_bits (length_bits v) (length bytes) ++ bits_of bytes),
  length-append (to_bits (length_bits v) (length bytes)) (bits_of bytes),
  length-to_bits 4 4,
  length-to_bits (length_bits v) (length bytes),
  length-bits_of bytes,
)

content-IsBit : (bytes : List ℕ) (v : ℕ) → All IsBit (content bytes v)
unfolding content
content-IsBit bytes v = All-append IsBit (to_bits 4 4) _ (to_bits-IsBit 4 4) (
    All-append IsBit (to_bits (length_bits v) (length bytes)) (bits_of bytes)
      (to_bits-IsBit (length_bits v) (length bytes)) (bits_of-IsBit bytes))

-- What stands after the content does not change what is read.
read_content :
    (bytes rest stream : List ℕ) (v : ℕ)
    → All IsByte bytes
    → length bytes < 2 ^ length_bits v
    → bits_of stream ≡ content bytes v ++ rest
    → read_data v stream ≡ some bytes
unfolding read_data content
read_content bytes rest stream v h hl e =
    rw
      (
        e,
        append_assoc,
        read_small 4 4 ((to_bits (length_bits v) (length bytes) ++ bits_of bytes) ++ rest)
            (omega arith),
        append_assoc,
        read_small (length_bits v) (length bytes) (bits_of bytes ++ rest) hl,
      )
      (read_bytes_lem bytes rest h)

-- The stream of a content that fits: its length, and its bits.
module _ (bytes : List ℕ) (v room : ℕ) (fits : length (content bytes v) ≤ room * 8) where
  ended_fits : length (terminated room (content bytes v)) ≤ room * 8
  unfolding terminated
  ended_fits = omega (
    arith,
    length-append (content bytes v) (to_bits (min 4 (room * 8 - length (content bytes v))) 0),
    length-to_bits (min 4 (room * 8 - length (content bytes v))) 0,
  )

  filled_up : Aligned 8 room (terminated room (content bytes v))
  filled_up = aligned_lem 8 room (terminated room (content bytes v)) ended_fits (omega arith)

  whole_bits : List ℕ
  whole_bits = aligned 8 (terminated room (content bytes v))

  whole_bits-IsBit : All IsBit whole_bits
  unfolding whole_bits terminated
  whole_bits-IsBit = rw filled_up.whole (
      All-append IsBit _ filled_up.tail
        (All-append IsBit (content bytes v) _ (content-IsBit bytes v)
          (to_bits-IsBit (min 4 (room * 8 - length (content bytes v))) 0))
        filled_up.low)

  whole_bits_fit : (length whole_bits % 8 ≡ 0) × (length whole_bits ≤ room * 8)
  unfolding whole_bits
  whole_bits_fit = rw filled_up.whole (filled_up.full, filled_up.fits)

  laid_lem : laid room whole_bits ≡ to_bytes whole_bits ++ filling (room - length whole_bits / 8) 0
  unfolding laid
  laid_lem =
      ap (λ l. l ++ filling (room - length whole_bits / 8) 0)
        (first_bytes_all room (to_bytes whole_bits)
          (omega (arith, length-to_bytes whole_bits, whole_bits_fit)))

  length-laid : length (laid room whole_bits) ≡ room
  length-laid = rw laid_lem (
      omega (
        arith,
        length-append (to_bytes whole_bits) (filling (room - length whole_bits / 8) 0),
        length-to_bytes whole_bits,
        length-filling (room - length whole_bits / 8) 0,
        whole_bits_fit,
      ))

  laid-IsByte : All IsByte (laid room whole_bits)
  laid-IsByte = rw laid_lem (
      All-append IsByte (to_bytes whole_bits) _ (to_bytes-IsByte whole_bits whole_bits-IsBit)
        (filling-IsByte (room - length whole_bits / 8) 0))

  after_content : List ℕ
  after_content =
      to_bits (min 4 (room * 8 - length (content bytes v))) 0
      ++ (filled_up.tail ++ bits_of (filling (room - length whole_bits / 8) 0))

  bits_of-laid : bits_of (laid room whole_bits) ≡ content bytes v ++ after_content
  unfolding after_content terminated whole_bits
  bits_of-laid =
      ap bits_of laid_lem
      ∙ bits_of-append (to_bytes whole_bits) (filling (room - length whole_bits / 8) 0)
      ∙ ap (λ l. l ++ bits_of (filling (room - length whole_bits / 8) 0))
          (bits_of-to_bytes whole_bits whole_bits-IsBit whole_bits_fit.0 ∙ filled_up.whole)
      ∙ append_assoc (terminated room (content bytes v)) filled_up.tail _
      ∙ append_assoc (content bytes v) _ _

  read-laid :
      All IsByte bytes
      → length bytes < 2 ^ length_bits v
      → read_data v (laid room whole_bits) ≡ some bytes
  read-laid h hl = read_content bytes after_content (laid room whole_bits) v h hl bits_of-laid

length_fits : (v n : ℕ) → n ≤ 213 → n < 2 ^ length_bits v
length_fits v n h = ground arith

content_fits :
    (bytes : List ℕ) (v room : ℕ)
    → needed v (length bytes) ≤ room
    → length (content bytes v) ≤ room * 8
unfolding needed
content_fits bytes v room h = ground (arith, length-content bytes v)

-- For bytes and the version that `dobierzWersje` chose for their number, `ulozDane` returns a stream
-- of bytes that fills the version's capacity exactly, and in which a reader of the standard (the mode, the
-- number of bytes, the bytes) finds the same bytes.
pub lay_data_round_trip :
    (bytes : List ℕ) (v : ℕ)
    → All IsByte bytes
    → choose_version (length bytes) ≡ some v
    → (stream : List ℕ) × (lay_data bytes v ≡ some stream)
      × All IsByte stream
      × (capacity v ≡ some (length stream))
      × (read_data v stream ≡ some bytes)
unfolding lay_data Fits whole_bits
lay_data_round_trip bytes v h e =
    let (lo, hi, (room, c, le), least) = choose_version_lem (length bytes) v e in
    let fits = content_fits bytes v room le in
    let bound = (choose_version_bound (length bytes)).0 (rw e refl) in
    (
      laid room (whole_bits bytes v room fits),
      rw (lay_data, c) refl,
      laid-IsByte bytes v room fits,
      c ∙ ap some (sym (length-laid bytes v room fits)),
      read-laid bytes v room fits h (length_fits v (length bytes) bound),
    )
