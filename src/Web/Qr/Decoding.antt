-- ===== src/Web/Qr/Decoding.antt =====
-- web/src/lib/qr.ts, `qrMatrixZMaska`: reading a finished symbol back.
use mekamb_chat.Common.{
  ℕ, zero, suc, ◌+◌, ◌-◌, ◌*◌, ◌/◌, ◌%◌, ◌==◌, ==_iff, ◌≤◌, ◌<◌, ◌≡◌, refl, ap, subst, ◌∙◌, arith,
}
use mekamb_chat.Common.{Bool, true, leb, leb→le, ltb, if◌then◌else◌, length, map, All}
use mekamb_chat.Common.{Option, some, none, List, [], ◌∷◌, ◌++◌, Option-cases, inl, inr}
use mekamb_chat.Common.Arrays.{at?, at?_bound}
use mekamb_chat.Common.Bits.{descending, all_below, table_row}
use mekamb_chat.Web.Qr.Grid.{Grid}
use mekamb_chat.Web.Qr.Information.{bit_at}
use mekamb_chat.Web.Qr.Stream.{to_bytes, to_number}
use mekamb_chat.Web.Qr.Zigzag.{data_bit, zigzag, write_data, write_places, matrix_of}
use mekamb_chat.Web.Qr.Symbol.{
  read_places, data_bits, free_places, read_places-write_places, side-write_places,
}
use mekamb_chat.Web.Qr.Separating.{separate, separate-interleave}
use mekamb_chat.Web.Qr.Versions.{
  Parameters, block_table, parameters, data_bytes, capacity, choose_version,
}
use mekamb_chat.Web.Qr.Smallest.{choose_version_lem, choose_version_bound}
use mekamb_chat.Web.Qr.Interleave.{sizes, cut, written, interleave}
use mekamb_chat.Web.Qr.Codewords.{written-IsByte, length-written}
use mekamb_chat.Web.Qr.RoundTrip.{lay_data_round_trip}
use mekamb_chat.Web.Qr.Reading.{read_data}
use mekamb_chat.Web.Qr.Patterns.{frame}
use mekamb_chat.Web.Qr.Room.{Prepared, prepared, codeword_bytes}

abbrev pub IsByte : ℕ → Type 0
IsByte b = b < 256

abbrev digit : Bool → ℕ
digit b = if b then 1 else 0

-- The bytes of the bits that were read.
unfoldable pub bytes_read : List Bool → List ℕ
bytes_read bits = to_bytes (map digit bits)

byte_table :
    all_below 256 (λ b.
      to_number 0 (
        digit (bit_at b 7)
        ∷ digit (bit_at b 6)
        ∷ digit (bit_at b 5)
        ∷ digit (bit_at b 4)
        ∷ digit (bit_at b 3)
        ∷ digit (bit_at b 2)
        ∷ digit (bit_at b 1)
        ∷ digit (bit_at b 0)
        ∷ [])
      == b)
    ≡ true
unfolding all_below descending to_number
byte_table = refl

shifted_bit :
    (b : ℕ) (bytes : List ℕ) (bit : ℕ) → data_bit (b ∷ bytes) (bit + 8) ≡ data_bit bytes bit
unfolding data_bit
shifted_bit b bytes bit = rw (next_byte bit, same_bit bit, same_test bit (length bytes)) refl
  where
    next_byte : (n : ℕ) → (n + 8) / 8 ≡ suc (n / 8)
    next_byte n = omega arith

    same_bit : (n : ℕ) → (n + 8) % 8 ≡ n % 8
    same_bit n = omega arith

    same_test : (n k : ℕ) → ltb (n + 8) (suc k * 8) ≡ ltb n (k * 8)
    same_test n k = ground arith

shifted_bits :
    (b : ℕ) (bytes : List ℕ) (n bit : ℕ) → data_bits (b ∷ bytes) n (bit + 8) ≡ data_bits bytes n bit
unfolding data_bits
shifted_bits b bytes zero bit = refl
shifted_bits b bytes (suc n) bit = rw (shifted_bit b bytes bit) (
    ap (λ l. data_bit bytes bit ∷ l)
      (ap (data_bits (b ∷ bytes) n) (suc_plus bit) ∙ shifted_bits b bytes n (suc bit)))
  where
    suc_plus : (x : ℕ) → suc (x + 8) ≡ suc x + 8
    suc_plus x = omega arith

head_bit : (b : ℕ) (bytes : List ℕ) (j : ℕ) → j < 8 → data_bit (b ∷ bytes) j ≡ bit_at b (7 - j)
unfolding data_bit
head_bit b bytes j h = rw (in_range j (length bytes) h, no_byte j h, same_bit j h) refl
  where
    in_range : (x k : ℕ) → x < 8 → ltb x (suc k * 8) ≡ true
    in_range x k h = ground arith

    no_byte : (x : ℕ) → x < 8 → x / 8 ≡ 0
    no_byte x h = omega arith

    same_bit : (x : ℕ) → x < 8 → x % 8 ≡ x
    same_bit x h = omega arith

first_byte :
    (b : ℕ) (bytes : List ℕ) (n : ℕ)
    → IsByte b
    → bytes_read (data_bits (b ∷ bytes) (suc (suc (suc (suc (suc (suc (suc (suc n)))))))) 0)
      ≡ b ∷ bytes_read (data_bits bytes n 0)
unfolding bytes_read data_bits to_bytes
first_byte b bytes n h =
    rw
      (
        head_bit b bytes 0 (omega arith),
        head_bit b bytes 1 (omega arith),
        head_bit b bytes 2 (omega arith),
        head_bit b bytes 3 (omega arith),
        head_bit b bytes 4 (omega arith),
        head_bit b bytes 5 (omega arith),
        head_bit b bytes 6 (omega arith),
        head_bit b bytes 7 (omega arith),
      )
      (ap (λ x. x ∷ to_bytes (map digit (data_bits (b ∷ bytes) n 8)))
          ((==_iff _ b).0 (table_row 256 _ b byte_table h))
        ∙ ap (λ l. b ∷ to_bytes (map digit l)) (shifted_bits b bytes n 0))

-- With a place for every bit the bytes that are read start with the bytes that were written.
bytes_read-data_bits :
    (bytes : List ℕ) (n : ℕ)
    → All IsByte bytes
    → length bytes * 8 ≤ n
    → (after : List ℕ) × (bytes_read (data_bits bytes n 0) ≡ bytes ++ after)
bytes_read-data_bits [] n h le = (bytes_read (data_bits [] n 0), refl)
bytes_read-data_bits (b ∷ bytes) (suc (suc (suc (suc (suc (suc (suc (suc n)))))))) (hb, h) le =
    let (after, e) = bytes_read-data_bits bytes n h (omega arith) in
    (after, first_byte b bytes n hb ∙ ap (λ l. b ∷ l) e)
bytes_read-data_bits (b ∷ bytes) _ (hb, h) le = absurd (omega arith)

-- Reading with the version, the mask and the frame of the writer: the bits off the zigzag and the mask, the bytes, the blocks put
-- together, the text's bytes.
unfoldable pub read_with : ℕ → ℕ → Grid → Option (List ℕ)
read_with v mask m =
    elim (separate (bytes_read (read_places (frame v mask) m mask (zigzag m.side))) v) [
      | none ↦ none
      | some stream ↦ read_data v stream
    ]

read_with_lem :
    (v mask : ℕ) (m : Grid) (stream : List ℕ)
    → separate (bytes_read (read_places (frame v mask) m mask (zigzag m.side))) v ≡ some stream
    → read_with v mask m ≡ read_data v stream
unfolding read_with
read_with_lem v mask m stream e = rw (read_with, e) refl

read_symbol :
    (mask v : ℕ) (bytes stream codewords : List ℕ)
    → Prepared mask v
    → length codewords ≤ codeword_bytes v
    → All IsByte codewords
    → ((after : List ℕ) → separate (codewords ++ after) v ≡ some stream)
    → read_data v stream ≡ some bytes
    → read_with v mask (write_data codewords mask (frame v mask)) ≡ some bytes
unfolding write_data
read_symbol mask v bytes stream codewords ready small all separated readable =
    let f = frame v mask in
    let l = zigzag f.side in
    let (after, e) =
      bytes_read-data_bits codewords (free_places f l) all (omega (arith, ready.room)) in
    let w = write_places codewords mask l 0 f in
    let bits =
      ap (λ s. read_places f w mask (zigzag s)) (side-write_places codewords mask l 0 f)
      ∙ read_places-write_places codewords mask l 0 f ready.apart in
    read_with_lem v mask w stream
      (ap (λ t. separate (bytes_read t) v) bits ∙ ap (λ t. separate t v) e ∙ separated after)
    ∙ readable

small_ec : Option Parameters → Bool
small_ec none = true
small_ec (some p) = leb p.ec 255

ec_table : all_below 10 (λ k. small_ec (at? k block_table)) ≡ true
unfolding all_below descending small_ec
ec_table = refl

ec_small : (v : ℕ) (p : Parameters) → parameters v ≡ some p → p.ec ≤ 255
unfolding parameters small_ec
ec_small zero p e = absurd (cc e)
ec_small (suc k) p e =
    let row =
      table_row 10 (λ k. small_ec (at? k block_table)) k ec_table (at?_bound k block_table p e) in
    leb→le _ _ (subst (λ o. small_ec o ≡ true) e row)

interleaved :
    (stream codewords : List ℕ) (v : ℕ)
    → All IsByte stream
    → capacity v ≡ some (length stream)
    → interleave stream v ≡ some codewords
    → (length codewords ≤ codeword_bytes v) × All IsByte codewords
unfolding interleave capacity codeword_bytes
interleaved stream codewords v all room h = elim (Option-cases (parameters v)) [
  | inl e ↦ absurd (cc (rw (interleave, e) at h))
  | inr (p, e) ↦
      let same : written p (cut (sizes p.groups) stream) ≡ codewords =
        cc (rw (interleave, e) at h) in
      let fits : data_bytes p ≡ length stream = cc (rw (capacity, e) at room) in
      subst (λ c. (length c ≤ codeword_bytes v) × All IsByte c) same
        (
          rw (codeword_bytes, e) (omega (arith, fits, length-written p stream)),
          written-IsByte p stream (ec_small v p e) all,
        )
]

-- For a text of at most 213 bytes the symbol is built, and is read back with the writer's own frame.
pub read_with-matrix_of :
    (bytes : List ℕ) (mask : ℕ)
    → All IsByte bytes
    → length bytes ≤ 213
    → (v : ℕ) × (codewords : List ℕ) × (choose_version (length bytes) ≡ some v)
      × (matrix_of bytes mask ≡ some (write_data codewords mask (frame v mask)))
      × (read_with v mask (write_data codewords mask (frame v mask)) ≡ some bytes)
unfolding matrix_of write_data
read_with-matrix_of bytes mask h small = elim (Option-cases (choose_version (length bytes))) [
  | inl e ↦ absurd (cc (e, (choose_version_bound (length bytes)).1 small))
  | inr (v, e) ↦
      let (lo, hi, fits, least) = choose_version_lem (length bytes) v e in
      let (stream, laid_out, all, full, readable) = lay_data_round_trip bytes v h e in
      let (codewords, dealt, separated) = separate-interleave stream v full in
      let (room, codeword_all) = interleaved stream codewords v all full dealt in
      (
        v,
        codewords,
        e,
        rw (matrix_of, e, laid_out, dealt) refl,
        read_symbol mask v bytes stream codewords (prepared mask v lo hi) room codeword_all
            separated readable,
      )
]
