-- ===== src/Web/Qr/Scanning.antt =====
-- web/src/lib/qr.ts, `qrMatrixZMaska`: the standard's reader gets the text from the symbol.
use mekamb_chat.Common.{
  ℕ, zero, suc, ◌+◌, ◌*◌, ◌≤◌, ◌<◌, ◌≡◌, refl, sym, ap, ◌∙◌, arith, Bool, true, false, ◌&&◌, Option,
  none, some, List, get_or_else, length, All,
}
use mekamb_chat.Common.Arrays.{at?}
use mekamb_chat.Common.Bits.{descending, all_below, table_row}
use mekamb_chat.Web.Qr.Versions.{choose_version}
use mekamb_chat.Web.Qr.Smallest.{choose_version_lem}
use mekamb_chat.Web.Qr.Grid.{Grid, Module, unset, filled, blank, module_at, set_module}
use mekamb_chat.Web.Qr.Patterns.{
  frame, fixed_patterns, write_format, finder, finder_module, timing, square, alignment,
  version_modules,
}
use mekamb_chat.Web.Qr.Zigzag.{zigzag, write_data, write_places, matrix_of}
use mekamb_chat.Web.Qr.Symbol.{read_places, side-write_places, write_places_set}
use mekamb_chat.Web.Qr.Separating.{separate}
use mekamb_chat.Web.Qr.Reading.{read_data}
use mekamb_chat.Web.Qr.Room.{prepared}
use mekamb_chat.Web.Qr.Decoding.{IsByte, bytes_read, read_with, read_with-matrix_of}
use mekamb_chat.Web.Qr.Scanner.{reading_order, scan, version_of, mask_of}
use mekamb_chat.Web.Qr.Expected.{mask_of-frame, read_places-scan}

-- The text's bytes from the bits of a version.
unfoldable pub finished : ℕ → List Bool → Option (List ℕ)
finished v bits = elim (separate (bytes_read bits) v) [
  | none ↦ none
  | some stream ↦ read_data v stream
]

-- A reader that is given the symbol alone: the version by its side, the mask by its format, the bits
-- in the order of the standard, the bytes, the blocks put together, the text's bytes.
unfoldable pub decode : Grid → Option (List ℕ)
decode m = let v = version_of m in finished v (scan v (mask_of m) m (reading_order m.side))

abbrev is_set : Option Module → Bool
is_set none = false
is_set (some unset) = false
is_set (some (filled b)) = true

is_set_lem : (o : Option Module) → is_set o ≡ true → (b : Bool) × (o ≡ some (filled b))
is_set_lem none h = absurd (cc h)
is_set_lem (some unset) h = absurd (cc h)
is_set_lem (some (filled b)) h = (b, refl)

-- The modules of the mask are set before the data, in every version.
abbrev set_in_row : Grid → Bool
set_in_row f =
    is_set (at? (8 * f.side + 2) f.cells)
    && (is_set (at? (8 * f.side + 3) f.cells) && is_set (at? (8 * f.side + 4) f.cells))

format_set : (mask : ℕ) → all_below 10 (λ k. set_in_row (frame (suc k) mask)) ≡ true
unfolding frame fixed_patterns write_format finder finder_module timing square alignment
    version_modules blank set_module all_below descending
format_set mask = refl

module _ (codewords : List ℕ) (mask : ℕ) (f : Grid) where
  stays :
      (x : ℕ)
      → is_set (at? (8 * f.side + x) f.cells) ≡ true
      → module_at (write_data codewords mask f) 8 x ≡ module_at f 8 x
  unfolding module_at write_data
  stays x h =
      let (b, e) = is_set_lem (at? (8 * f.side + x) f.cells) h in
      let side = side-write_places codewords mask (zigzag f.side) 0 f in
      ap
        (λ s.
          get_or_else (at? (8 * s + x) (write_places codewords mask (zigzag f.side) 0 f).cells)
            unset)
        side
      ∙ ap (λ o. get_or_else o unset)
          (write_places_set codewords mask (8 * f.side + x) b (zigzag f.side) 0 f e ∙ sym e)

  three : (a b c : Bool) → (a && (b && c)) ≡ true → (a ≡ true) × (b ≡ true) × (c ≡ true)
  three true true true e = (refl, refl, refl)
  three true true false e = absurd (cc e)
  three true false c e = absurd (cc e)
  three false b c e = absurd (cc e)

  mask_of-write_data : set_in_row f ≡ true → mask_of (write_data codewords mask f) ≡ mask_of f
  unfolding mask_of
  mask_of-write_data h =
      let (one, two, last) = three _ _ _ h in rw (stays 2 one, stays 3 two, stays 4 last) refl

-- The reader by the standard reads what the writer's own frame gives.
decode-read_with :
    (codewords : List ℕ) (mask k : ℕ)
    → k < 10
    → mask < 8
    → let m = write_data codewords mask (frame (suc k) mask) in decode m ≡ read_with (suc k) mask m
unfolding decode finished read_with
decode-read_with codewords mask k h small =
    let f = frame (suc k) mask in
    let m = write_data codewords mask f in
    let ready = prepared mask (suc k) (omega arith) (omega arith) in
    let same : m.side ≡ f.side =
      unfold write_data in side-write_places codewords mask (zigzag f.side) 0 f in
    let sized : f.side ≡ k * 4 + 21 = omega (arith, ready.square_side) in
    let version : version_of m ≡ suc k = omega (arith, same, sized) in
    let mask_lem : mask_of m ≡ mask =
      mask_of-write_data codewords mask f (table_row 10 _ k (format_set mask) h)
      ∙ mask_of-frame k mask h small in
    let bits : read_places f m mask (zigzag m.side) ≡ scan (suc k) mask m (reading_order m.side) =
      ap (λ s. read_places f m mask (zigzag s)) same
      ∙ (read_places-scan k mask m h small sized
          ∙ ap (λ s. scan (suc k) mask m (reading_order s)) (sym same)) in
    let order = reading_order m.side in
    ap (λ w. finished w (scan w (mask_of m) m order)) version
    ∙ (ap (λ q. finished (suc k) (scan (suc k) q m order)) mask_lem
        ∙ ap (finished (suc k)) (sym bits))

-- For a text of at most 213 bytes and any of the eight masks, `qrMatrixZMaska` builds a symbol, and a
-- reader that has the symbol alone gets the text back. The reader follows the standard: it takes the
-- version from the side and the mask from the format modules, passes over the modules that the
-- standard reserves, reads the others in the standard's order, given by a formula, lifts the mask by
-- the standard's condition, groups the bits into bytes, deals them out to the blocks, and reads the
-- mode, the length and the bytes. It shares with the code the grouping of eight bits and the table of
-- the blocks.
pub decode-matrix_of :
    (bytes : List ℕ) (mask : ℕ)
    → mask < 8
    → All IsByte bytes
    → length bytes ≤ 213
    → (v : ℕ) × (m : Grid) × (choose_version (length bytes) ≡ some v)
      × (matrix_of bytes mask ≡ some m)
      × (decode m ≡ some bytes)
decode-matrix_of bytes mask eight h small =
    let (v, codewords, chosen, built, readable) = read_with-matrix_of bytes mask h small in
    let (lo, hi, fits, least) = choose_version_lem (length bytes) v chosen in
    (
      v,
      write_data codewords mask (frame v mask),
      chosen,
      built,
      from_above v lo hi codewords ∙ readable,
    )
  where
    from_above :
        (v : ℕ)
        → 1 ≤ v
        → v ≤ 10
        → (codewords : List ℕ)
        → let m = write_data codewords mask (frame v mask) in decode m ≡ read_with v mask m
    from_above zero lo hi codewords = absurd (omega arith)
    from_above (suc k) lo hi codewords = decode-read_with codewords mask k hi eight
