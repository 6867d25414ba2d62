-- ===== src/Web/Calls.antt =====
-- One connection of a call (web/src/lib/calls.ts, `PeerLink`). The browser's `RTCPeerConnection` and
-- the core's check of fingerprints are parameters.
use Prim.Native.String
use Prim.Native.Char.{Char, code}
use mekamb_chat.Common.{
  ℕ, String, Bool, true, false, not, ◌&&◌, ◌||◌, Option, none, some, List, [], ◌∷◌, ◌++◌,
  if◌then◌else◌, ltb, ◌==◌, text_eqb,
}
pub mod Room
pub mod Keeps
pub mod Verified
pub mod Candidates
pub mod Glare

-- `RTCPeerConnection` with the state `R`; `none` and `false` are exceptions.
pub record Peer (R : Type 0) : Type 0 where
  pub is_stable : R → Bool
  pub has_remote : R → Bool
  pub create_offer : R → R × Option String
  pub create_answer : R → R × Option String
  pub set_local : String → R → R × Bool
  pub set_remote : String → R → R × Bool
  pub add_candidate : String → R → R × Bool
  pub close : R → R
  pub is_json : String → Bool
  pub own_fingerprint : String → String
  pub fits : String → String → Bool

pub data Phase : Type 0 where
  connecting running ended : Phase

pub data SignalKind : Type 0 where
  offer answer ice hangup other : SignalKind

-- What is done with the connection and sent to the peer, the latest first.
pub data Deed : Type 0 where
  described : String → String → Deed
  tried : String → Deed
  sent : SignalKind → String → String → Deed
  closed : Deed

pub record Link (R : Type 0) : Type 0 where
  pub username : String
  pub connection : R
  pub is_polite : Bool
  pub queue : List String
  pub phase : Phase
  pub rejected_fingerprint : Bool
  pub makes_offer : Bool
  pub deeds : List Deed

-- `mojaNazwa < username`, character by character.
unfoldable pub text_lt : String → String → Bool
text_lt String.[] String.[] = false
text_lt String.[] (String.◌∷◌ d t) = true
text_lt (String.◌∷◌ c s) String.[] = false
text_lt (String.◌∷◌ c s) (String.◌∷◌ d t) =
    ltb (code c) (code d) || ((code c == code d) && text_lt s t)

-- A step and whether it ended without an exception.
abbrev pub Did : Type 0 → Type 0
Did R = Link R × Bool

module _ {R : Type 0} where
  -- `if` an earlier step threw, the later one is not made.
  abbrev pub and_then : Did R → (Link R → Did R) → Did R
  and_then (l, true) f = f l
  and_then (l, false) f = (l, false)

  abbrev pub note : Deed → Link R → Link R
  note d l = record l { deeds = d ∷ l.deeds }

module _ {R : Type 0} (p : Peer R) where
  -- `PeerLink.utworz`
  unfoldable pub make_link : String → String → R → Link R
  unfolding text_lt
  make_link username me connection = record {
    username = username;
    connection = connection;
    is_polite = text_lt me username;
    queue = [];
    phase = connecting;
    rejected_fingerprint = false;
    makes_offer = false;
    deeds = [];
  }

  -- `zamknij`
  unfoldable pub shut : Link R → Link R
  shut l = note closed (record l { connection = p.close l.connection; phase = ended })

  unfoldable pub set_local : String → Link R → Did R
  set_local sdp l =
      let (r, fine) = p.set_local sdp l.connection in (record l { connection = r }, fine)

  -- A description of the peer is set; `print` is the fingerprint that came with it.
  unfoldable pub set_remote : String → String → Link R → Did R
  set_remote sdp print l =
      let (r, fine) = p.set_remote sdp l.connection in
      (note (described sdp print) (record l { connection = r }), fine)

  unfoldable pub try_candidate : String → Link R → Did R
  try_candidate c l =
      let (r, fine) = p.add_candidate c l.connection in
      (note (tried c) (record l { connection = r }), fine)

  -- The loop of `oproznijKolejkeIce`: a candidate that the connection refuses is passed over, but one
  -- that is no JSON throws before the call, outside of the `catch`.
  unfoldable pub try_all : List String → Link R → Did R
  unfolding try_candidate
  try_all [] l = (l, true)
  try_all (c ∷ cs) l =
      let rest = try_all cs (try_candidate c l).0 in if p.is_json c then rest else (l, false)

  -- `oproznijKolejkeIce`
  unfoldable pub flush_queue : Link R → Did R
  unfolding try_all
  flush_queue l = try_all l.queue (record l { queue = [] })

  -- `zaproponuj` in its two parts: a signal may come between them.
  unfoldable pub begin_offer : Link R → Link R
  begin_offer l = record l { makes_offer = true }

  unfoldable pub send_offer : String → Link R → Did R
  unfolding set_local
  send_offer sdp l =
      and_then (set_local sdp l) λ l'. (note (sent offer sdp (p.own_fingerprint sdp)) l', true)

  abbrev pub offer_made : Option String → Link R → Did R
  unfolding send_offer
  offer_made none l = (l, false)
  offer_made (some sdp) l = send_offer sdp l

  -- `finally`: the flag is taken back whether the offer was sent or not.
  unfoldable pub end_offer : Link R → Did R
  unfolding offer_made
  end_offer l =
      let (r, sdp) = p.create_offer l.connection in
      let (l', fine) = offer_made sdp (record l { connection = r }) in
      (record l' { makes_offer = false }, fine)

  abbrev pub answer_made : Option String → Link R → Did R
  unfolding set_local
  answer_made none l = (l, false)
  answer_made (some sdp) l =
      and_then (set_local sdp l) λ l'. (note (sent answer sdp (p.own_fingerprint sdp)) l', true)

  unfoldable pub reply : Link R → Did R
  unfolding answer_made
  reply l =
      let (r, sdp) = p.create_answer l.connection in answer_made sdp (record l { connection = r })

  -- An offer that meets one's own, where the other side gives way.
  unfoldable pub ignores : Link R → Bool
  ignores l = (l.makes_offer || not (p.is_stable l.connection)) && not l.is_polite

  -- `sprawdzOdcisk`
  unfoldable pub check_print : String → String → Link R → Did R
  unfolding shut
  check_print sdp print l =
      if p.fits sdp print
      then (l, true)
      else (shut (record l { rejected_fingerprint = true }), false)

  unfoldable pub take_offer : String → String → Link R → Did R
  unfolding ignores set_remote flush_queue reply
  take_offer sdp print l =
      if ignores l
      then (l, true)
      else and_then (set_remote sdp print l) λ l'. and_then (flush_queue l') reply

  unfoldable pub take_answer : String → String → Link R → Did R
  unfolding set_remote flush_queue
  take_answer sdp print l = and_then (set_remote sdp print l) flush_queue

  unfoldable pub take_candidate : String → Link R → Did R
  unfolding try_candidate
  take_candidate c l =
      if p.has_remote l.connection
      then (if p.is_json c then try_candidate c l else (l, false))
      else (record l { queue = l.queue ++ c ∷ [] }, true)

  -- `przyjmij`, with nothing handled between its parts.
  unfoldable pub accept : SignalKind → String → String → Link R → Did R
  unfolding check_print take_offer take_answer take_candidate shut
  accept offer payload print l = and_then (check_print payload print l) (take_offer payload print)
  accept answer payload print l = and_then (check_print payload print l) (take_answer payload print)
  accept ice payload print l = take_candidate payload l
  accept hangup payload print l = (shut l, true)
  accept other payload print l = (l, true)

-- What happens to a connection.
pub data LinkEvent : Type 0 where
  begins ends shuts : LinkEvent
  signals : SignalKind → String → String → LinkEvent

module _ {R : Type 0} (p : Peer R) where
  unfoldable pub link_step : LinkEvent → Link R → Link R
  unfolding begin_offer end_offer accept shut
  link_step begins l = begin_offer p l
  link_step ends l = (end_offer p l).0
  link_step shuts l = shut p l
  link_step (signals kind payload print) l = (accept p kind payload print l).0

  unfoldable pub link_run : List LinkEvent → Link R → Link R
  unfolding link_step
  link_run [] l = l
  link_run (e ∷ es) l = link_run es (link_step e l)
