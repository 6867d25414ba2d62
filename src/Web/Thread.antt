-- ===== src/Web/Thread.antt =====
-- The layout of a thread: `ulozWatek` (web/src/lib/watek.ts). The calendar is the browser's `Date`
-- and `Intl`.
use mekamb_chat.Common.{
  ℕ, ◌-◌, ◌*◌, String, Bool, true, false, not, ◌&&◌, ◌||◌, Option, none, some, List, [], ◌∷◌,
  if◌then◌else◌, ltb, leb, ◌==◌, is_some, text_eqb,
}
use mekamb_chat.Web.History.{Message}
pub mod Blocks

pub record Calendar : Type 0 where
  pub day : ℕ → String
  pub year : ℕ → ℕ
  pub date : ℕ → String
  pub date_with_year : ℕ → String

-- `PRZERWA_BLOKU_MS`
abbrev pub block_break_ms : ℕ
block_break_ms = 5 * 60 * 1000

-- `PRZERWA_ROZDZIELACZA_MS`
abbrev pub separator_break_ms : ℕ
separator_break_ms = 60 * 60 * 1000

-- `PozycjaWatku`, without the keys of React: a separator with its label and time; a message, whether
-- it continues a block, whether it ends one, and whether it is the last own one.
pub data Item : Type 0 where
  separator : String → ℕ → Item
  bubble : Message → Bool → Bool → Bool → Item

module _ (c : Calendar) where
  -- `etykietaDnia`
  unfoldable pub day_label : ℕ → ℕ → String
  day_label time now =
      if text_eqb (c.day time) (c.day now)
      then "Dziś"
      else if text_eqb (c.day time) (c.day (now - 24 * 60 * 60 * 1000))
      then "Wczoraj"
      else if c.year time == c.year now
      then c.date time
      else c.date_with_year time

  -- `nowyDzien || cisza`
  abbrev pub is_break : Option Message → Message → Bool
  is_break none w = true
  is_break (some p) w =
      not (text_eqb (c.day p.time) (c.day w.time)) || leb separator_break_ms (w.time - p.time)

  -- `ciag`
  abbrev pub is_run : Option Message → Message → Bool
  is_run none w = false
  is_run (some p) w =
      not (is_break (some p) w)
      && (not (is_some p.call)
          && (not (is_some w.call)
              && (same_side p.own w.own
                  && (text_eqb p.author w.author && ltb (w.time - p.time) block_break_ms))))
    where
      same_side : Bool → Bool → Bool
      same_side true b = b
      same_side false b = not b

  -- The forward pass, after the message before.
  unfoldable pub place : ℕ → Option Message → List Message → List Item
  unfolding day_label
  place now previous [] = []
  place now previous (w ∷ ws) =
      let rest = bubble w (is_run previous w) true false ∷ place now (some w) ws in
      if is_break previous w then separator (day_label w.time now) w.time ∷ rest else rest

-- `nastepna?.rodzaj === "wiadomosc" && nastepna.ciag`
abbrev pub continues : List Item → Bool
continues [] = false
continues (separator label time ∷ items) = false
continues (bubble w run tail last ∷ items) = run

-- An own message that is no trace of a call.
abbrev pub is_own : Message → Bool
is_own w = w.own && not (is_some w.call)

-- The backward pass, with whether the last own message was found.
unfoldable pub finish : List Item → List Item × Bool
finish [] = ([], false)
finish (separator label time ∷ items) =
    let rest = finish items in (separator label time ∷ rest.0, rest.1)
finish (bubble w run tail last ∷ items) =
    let rest = finish items in
    (bubble w run (not (continues items)) (not rest.1 && is_own w) ∷ rest.0, rest.1 || is_own w)

-- `ulozWatek`
unfoldable pub lay_out : Calendar → List Message → ℕ → List Item
unfolding place finish
lay_out c messages now = (finish (place c now none messages)).0
