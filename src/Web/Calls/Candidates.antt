-- ===== src/Web/Calls/Candidates.antt =====
-- The candidates that come before a description of the peer (web/src/lib/calls.ts, `kolejkaIce`).
use mekamb_chat.Common.{String, true, false, List, [], ◌∷◌, ◌++◌, ◌≡◌, refl, ap, sym, ◌∙◌, All}
use mathlib.Core.List.{append-nil, append_assoc}
use mekamb_chat.Web.Calls.{
  Peer, Link, offer, answer, ice, hangup, other, Deed, described, tried, sent, closed, Did,
  and_then, set_remote, try_candidate, try_all, flush_queue, reply, ignores, take_offer,
}

-- The candidates that the connection was given, in order.
abbrev pub tried_of : List Deed → List String
tried_of [] = []
tried_of (tried c ∷ l) = tried_of l ++ c ∷ []
tried_of (described sdp print ∷ l) = tried_of l
tried_of (sent kind sdp print ∷ l) = tried_of l
tried_of (closed ∷ l) = tried_of l

-- The answers that were sent.
abbrev pub answers_of : List Deed → List String
answers_of [] = []
answers_of (sent answer sdp print ∷ l) = sdp ∷ answers_of l
answers_of (sent offer sdp print ∷ l) = answers_of l
answers_of (sent ice sdp print ∷ l) = answers_of l
answers_of (sent hangup sdp print ∷ l) = answers_of l
answers_of (sent other sdp print ∷ l) = answers_of l
answers_of (tried c ∷ l) = answers_of l
answers_of (described sdp print ∷ l) = answers_of l
answers_of (closed ∷ l) = answers_of l

module _ {R : Type 0} (p : Peer R) where
  abbrev pub Readable : List String → Type 0
  Readable = All (λ c. p.is_json c ≡ true)

  -- A candidate that is no JSON stops the loop; those before it were tried.
  try_all_stops :
      (good more : List String) (bad : String) (l : Link R)
      → Readable good
      → p.is_json bad ≡ false
      → let d = try_all p (good ++ bad ∷ more) l in
        (d.1 ≡ false)
        × (d.0.queue ≡ l.queue)
        × (answers_of d.0.deeds ≡ answers_of l.deeds)
        × (tried_of d.0.deeds ≡ tried_of l.deeds ++ good)
  unfolding try_all try_candidate
  try_all_stops [] more bad l h no_json =
      rw no_json (refl, refl, refl, sym (append-nil (tried_of l.deeds)))
  try_all_stops (c ∷ good) more bad l h no_json =
      let ih = try_all_stops good more bad (try_candidate p c l).0 h.1 no_json in
      rw h.0 (ih.0, ih.1, ih.2, ih.3 ∙ append_assoc (tried_of l.deeds) (c ∷ []) good)

  and_then_stops : (d : Did R) (f : Link R → Did R) → d.1 ≡ false → and_then d f ≡ d
  and_then_stops (l, true) f h = absurd (cc h)
  and_then_stops (l, false) f h = refl

  -- An offer that is taken and set: the waiting candidates are tried, then the answer is made.
  pub taken :
      (sdp print : String) (l : Link R)
      → ignores p l ≡ false
      → (p.set_remote sdp l.connection).1 ≡ true
      → take_offer p sdp print l
        ≡ and_then
            (try_all p l.queue (record l {
              connection = (p.set_remote sdp l.connection).0;
              deeds = described sdp print ∷ l.deeds;
              queue = [];
            }))
            (reply p)
  unfolding take_offer set_remote flush_queue
  taken sdp print l accepts set = rw (accepts, set)

  -- One waiting candidate that is no JSON breaks the setting up: the offer of the peer is taken in,
  -- but the handling ends with an exception, no answer is sent, and the candidates that waited
  -- behind it are gone, neither tried nor waiting.
  pub take_offer_broken :
      (sdp print : String) (l : Link R) (good more : List String) (bad : String)
      → ignores p l ≡ false
      → (p.set_remote sdp l.connection).1 ≡ true
      → l.queue ≡ good ++ bad ∷ more
      → Readable good
      → p.is_json bad ≡ false
      → let d = take_offer p sdp print l in
        (d.1 ≡ false)
        × (d.0.queue ≡ [])
        × (answers_of d.0.deeds ≡ answers_of l.deeds)
        × (tried_of d.0.deeds ≡ tried_of l.deeds ++ good)
  unfolding take_offer set_remote flush_queue
  take_offer_broken sdp print l good more bad accepts set waits h no_json =
      let l' : Link R = record l {
        connection = (p.set_remote sdp l.connection).0;
        deeds = described sdp print ∷ l.deeds;
        queue = [];
      } in
      let stops = try_all_stops good more bad l' h no_json in
      let d = try_all p (good ++ bad ∷ more) l' in
      let opened : take_offer p sdp print l ≡ and_then d (reply p) =
        taken sdp print l accepts set ∙ ap (λ q. and_then (try_all p q l') (reply p)) waits in
      let ends : take_offer p sdp print l ≡ d = opened ∙ and_then_stops d (reply p) stops.0 in
      rw ends (stops.0, stops.1, stops.2, stops.3)
