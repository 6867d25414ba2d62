-- ===== src/Web/Calls/Keeps.antt =====
-- Properties of a connection that every signal keeps (web/src/lib/calls.ts): they are kept by the
-- single changes that `PeerLink` makes.
use mekamb_chat.Common.{
  String, Bool, true, false, Option, none, some, List, [], ◌∷◌, if◌then◌else◌, ◌≡◌, Bool-cases, inl,
  inr,
}
use mekamb_chat.Web.Calls.{
  Peer, Link, SignalKind, offer, answer, ice, hangup, other, described, tried, sent, Did, and_then,
  note, shut, set_local, set_remote, try_candidate, try_all, flush_queue, begin_offer, send_offer,
  offer_made, end_offer, answer_made, reply, ignores, check_print, take_offer, take_answer,
  take_candidate, accept, LinkEvent, begins, ends, shuts, signals, link_step, link_run,
}

-- The single changes; a description of the peer has a fingerprint that fits.
pub record IsKept {R : Type 0} (p : Peer R) (Good : Link R → Type 0) : Type 0 where
  pub connected : (l : Link R) (r : R) → Good l → Good (record l { connection = r })
  pub queued : (l : Link R) (q : List String) → Good l → Good (record l { queue = q })
  pub offering : (l : Link R) (b : Bool) → Good l → Good (record l { makes_offer = b })
  pub rejected : (l : Link R) → Good l → Good (record l { rejected_fingerprint = true })
  pub shuts : (l : Link R) → Good l → Good (shut p l)
  pub tries : (l : Link R) (c : String) → Good l → Good (note (tried c) l)
  pub sends :
      (l : Link R) (k : SignalKind) (sdp print : String) → Good l → Good (note (sent k sdp print) l)
  pub describes :
      (l : Link R) (sdp print : String)
      → p.fits sdp print ≡ true
      → Good l
      → Good (note (described sdp print) l)

module _ {R : Type 0} (p : Peer R) (Good : Link R → Type 0) (k : IsKept p Good) where
  try_candidate-Good : (c : String) (l : Link R) → Good l → Good (try_candidate p c l).0
  unfolding try_candidate
  try_candidate-Good c l h = k.tries _ c (k.connected l _ h)

  set_local-Good : (sdp : String) (l : Link R) → Good l → Good (set_local p sdp l).0
  unfolding set_local
  set_local-Good sdp l h = k.connected l _ h

  set_remote-Good :
      (sdp print : String) (l : Link R)
      → p.fits sdp print ≡ true
      → Good l
      → Good (set_remote p sdp print l).0
  unfolding set_remote
  set_remote-Good sdp print l fit h = k.describes _ sdp print fit (k.connected l _ h)

  and_then-Good :
      (d : Did R) (f : Link R → Did R)
      → Good d.0
      → ((l : Link R) → Good l → Good (f l).0)
      → Good (and_then d f).0
  and_then-Good (l, true) f h next = next l h
  and_then-Good (l, false) f h next = h

  if-Good : (b : Bool) (d e : Did R) → Good d.0 → Good e.0 → Good (if b then d else e).0
  if-Good true d e h h' = h
  if-Good false d e h h' = h'

  try_all-Good : (cs : List String) (l : Link R) → Good l → Good (try_all p cs l).0
  unfolding try_all
  try_all-Good [] l h = h
  try_all-Good (c ∷ cs) l h =
      if-Good (p.is_json c) (try_all p cs (try_candidate p c l).0) (l, false)
        (try_all-Good cs (try_candidate p c l).0 (try_candidate-Good c l h)) h

  answer_made-Good : (o : Option String) (l : Link R) → Good l → Good (answer_made p o l).0
  unfolding answer_made
  answer_made-Good none l h = h
  answer_made-Good (some sdp) l h =
      and_then-Good (set_local p sdp l) _ (set_local-Good sdp l h)
        (λ l' h'. k.sends l' answer sdp (p.own_fingerprint sdp) h')

  offer_made-Good : (o : Option String) (l : Link R) → Good l → Good (offer_made p o l).0
  unfolding offer_made send_offer
  offer_made-Good none l h = h
  offer_made-Good (some sdp) l h =
      and_then-Good (set_local p sdp l) _ (set_local-Good sdp l h)
        (λ l' h'. k.sends l' offer sdp (p.own_fingerprint sdp) h')

  flush_queue-Good : (l : Link R) → Good l → Good (flush_queue p l).0
  unfolding flush_queue
  flush_queue-Good l h = try_all-Good l.queue (record l { queue = [] }) (k.queued l [] h)

  reply-Good : (l : Link R) → Good l → Good (reply p l).0
  unfolding reply
  reply-Good l h =
      answer_made-Good (p.create_answer l.connection).1
        (record l { connection = (p.create_answer l.connection).0 }) (k.connected l _ h)

  take_offer-Good :
      (sdp print : String) (l : Link R)
      → p.fits sdp print ≡ true
      → Good l
      → Good (take_offer p sdp print l).0
  unfolding take_offer
  take_offer-Good sdp print l fit h =
      if-Good (ignores p l) (l, true) _ h
        (and_then-Good (set_remote p sdp print l) _ (set_remote-Good sdp print l fit h)
          λ l' h'. and_then-Good (flush_queue p l') (reply p) (flush_queue-Good l' h') reply-Good)

  take_answer-Good :
      (sdp print : String) (l : Link R)
      → p.fits sdp print ≡ true
      → Good l
      → Good (take_answer p sdp print l).0
  unfolding take_answer
  take_answer-Good sdp print l fit h =
      and_then-Good (set_remote p sdp print l) (flush_queue p) (set_remote-Good sdp print l fit h)
        flush_queue-Good

  take_candidate-Good : (c : String) (l : Link R) → Good l → Good (take_candidate p c l).0
  unfolding take_candidate
  take_candidate-Good c l h =
      if-Good (p.has_remote l.connection) _ _
        (if-Good (p.is_json c) _ _ (try_candidate-Good c l h) h) (k.queued l _ h)

  -- What follows the check is done with a fingerprint that fits.
  checked-Good :
      (sdp print : String) (l : Link R) (f : Link R → Did R)
      → Good l
      → (p.fits sdp print ≡ true → Good (f l).0)
      → Good (and_then (check_print p sdp print l) f).0
  unfolding check_print
  checked-Good sdp print l f h next = elim (Bool-cases (p.fits sdp print)) [
    | inl e ↦ rw e (next e)
    | inr e ↦ rw e (k.shuts _ (k.rejected l h))
  ]

  pub link_step-Good : (e : LinkEvent) (l : Link R) → Good l → Good (link_step p e l)
  unfolding link_step begin_offer end_offer accept
  link_step-Good begins l h = k.offering l true h
  link_step-Good ends l h = k.offering _ false (
      offer_made-Good (p.create_offer l.connection).1
        (record l { connection = (p.create_offer l.connection).0 }) (k.connected l _ h))
  link_step-Good shuts l h = k.shuts l h
  link_step-Good (signals offer sdp print) l h =
      checked-Good sdp print l (take_offer p sdp print) h (λ fit. take_offer-Good sdp print l fit h)
  link_step-Good (signals answer sdp print) l h =
      checked-Good sdp print l (take_answer p sdp print) h
        (λ fit. take_answer-Good sdp print l fit h)
  link_step-Good (signals ice c print) l h = take_candidate-Good c l h
  link_step-Good (signals hangup c print) l h = k.shuts l h
  link_step-Good (signals other c print) l h = h

  pub link_run-Good : (es : List LinkEvent) (l : Link R) → Good l → Good (link_run p es l)
  unfolding link_run
  link_run-Good [] l h = h
  link_run-Good (e ∷ es) l h = link_run-Good es (link_step p e l) (link_step-Good e l h)
