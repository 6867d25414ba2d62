-- ===== src/Web/Calls/Verified.antt =====
-- No description of a peer is used unless its fingerprint fits the one that came through the group
-- (web/src/lib/calls.ts, `sprawdzOdcisk`).
use mekamb_chat.Common.{true, List, [], ◌∷◌, ◌≡◌}
use mekamb_chat.Web.Calls.{
  Peer, Link, Deed, described, tried, sent, closed, shut, LinkEvent, link_run,
}
use mekamb_chat.Web.Calls.Keeps.{IsKept, link_run-Good}

module _ {R : Type 0} (p : Peer R) where
  abbrev pub AllFit : List Deed → Type 0
  AllFit [] = Unit
  AllFit (described sdp print ∷ l) = (p.fits sdp print ≡ true) × AllFit l
  AllFit (tried c ∷ l) = AllFit l
  AllFit (sent kind sdp print ∷ l) = AllFit l
  AllFit (closed ∷ l) = AllFit l

  AllFit-IsKept : IsKept p (λ l. AllFit l.deeds)
  unfolding shut
  AllFit-IsKept = record {
    connected = λ l r h. h;
    queued = λ l q h. h;
    offering = λ l b h. h;
    rejected = λ l h. h;
    shuts = λ l h. h;
    tries = λ l c h. h;
    sends = λ l k sdp print h. h;
    describes = λ l sdp print fit h. (fit, h);
  }

  -- Whatever offers, answers, candidates and hang-ups come, and however the own offers fall between
  -- them: each description of the peer that the connection was given has a fingerprint that fits the
  -- one from the encrypted channel.
  pub link_run-AllFit :
      (es : List LinkEvent) (l : Link R) → AllFit l.deeds → AllFit (link_run p es l).deeds
  link_run-AllFit = link_run-Good p (λ l. AllFit l.deeds) AllFit-IsKept
