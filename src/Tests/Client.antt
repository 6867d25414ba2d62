-- ===== src/Tests/Client.antt =====
-- Runs of the client's logic (web/src/lib).
use mekamb_chat.Common.{
  ◌≡◌, ◌≢◌, refl, String, false, not, ◌&&◌, none, some, List, [], ◌∷◌, any, text_discrete,
  text_eqb→ne,
}
use mekamb_chat.Web.Connection.{
  Link, Event, retries, ticks, drops, shuts, opened_up, says, shows, connected, pings, closes, run,
  start,
}
use mekamb_chat.Web.Connection.Bounds.{Bounded, run-Bounded}
use mekamb_chat.Web.Connection.Retries.{silence, silent_closed}
use mekamb_chat.Web.Receipts.{delivered, read}
use mekamb_chat.Web.Receipts.Collected.{
  Receipt, gather, awaits, tells_read, tells_delivered, gather_lem,
}

abbrev link : Link
link = record {
  socket = some 0;
  ping = some 0;
  retry = none;
  delay = 4000;
  shut = false;
  unanswered = 1;
  opened = 1;
}

abbrev evening : List Event
evening = opened_up 0 ∷ ticks ∷ says none ∷ drops ∷ retries ∷ shuts ∷ drops ∷ []

run-Bounded_example : Bounded (run start.0 evening).0
run-Bounded_example = run-Bounded evening

silent_closed_example :
    (run link (opened_up 0 ∷ silence 5)).1 ≡ shows connected ∷ pings 0 ∷ pings 0 ∷ closes 0 ∷ []
silent_closed_example = silent_closed 0 2 link

abbrev receipts : List Receipt
receipts =
    record { conversation = "c"; kind = delivered; id = "m1" }
    ∷ record { conversation = "c"; kind = read; id = "m1" }
    ∷ record { conversation = "c"; kind = delivered; id = "m1" }
    ∷ record { conversation = "d"; kind = delivered; id = "m2" }
    ∷ []

gather_lem_example :
    (awaits read "c" "m1" (gather [] receipts) ≡ any (tells_read "c" "m1") receipts)
    × (awaits delivered "c" "m1" (gather [] receipts)
        ≡ (any (tells_delivered "c" "m1") receipts && not (any (tells_read "c" "m1") receipts)))
gather_lem_example = gather_lem "c" "m1" receipts

abbrev one : String
one = "1"

abbrev two : String
two = "2"

two_ne_one : two ≢ one
unfolding text_discrete
two_ne_one = text_eqb→ne two one refl
