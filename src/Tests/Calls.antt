-- ===== src/Tests/Calls.antt =====
-- Runs of the connections of a call (web/src/lib/calls.ts), with a stand-in for the browser's.
use mekamb_chat.Common.{
  inl, inr, ◌≡◌, refl, Bool, true, false, not, some, List, [], ◌∷◌, ◌++◌, text_discrete, text_eqb,
  text_eqb→ne,
}
use mekamb_chat.Web.Calls.{
  Peer, Link, connecting, offer, answer, ice, LinkEvent, begins, ends, shuts, signals, begin_offer,
  make_link, ignores, take_offer, link_run, link_step,
}
use mekamb_chat.Web.Calls.Verified.{AllFit, link_run-AllFit}
use mekamb_chat.Web.Calls.Candidates.{tried_of, answers_of, take_offer_broken}
use mekamb_chat.Web.Calls.Glare.{side, one_gives_way}

-- Whether the connection is stable, and whether it has a description of the peer.
abbrev State : Type 0
State = Bool × Bool

abbrev peer : Peer State
peer = record {
  is_stable = λ r. r.0;
  has_remote = λ r. r.1;
  create_offer = λ r. (r, some "offer");
  create_answer = λ r. (r, some "answer");
  set_local = λ sdp r. ((false, r.1), true);
  set_remote = λ sdp r. ((true, true), true);
  add_candidate = λ c r. (r, true);
  close = λ r. r;
  is_json = λ c. not (text_eqb c "{");
  own_fingerprint = λ sdp. sdp;
  fits = λ sdp print. text_eqb sdp print;
}

abbrev link : Link State
link = record {
  username = "ola";
  connection = (true, false);
  is_polite = true;
  queue = [];
  phase = connecting;
  rejected_fingerprint = false;
  makes_offer = false;
  deeds = [];
}

abbrev evening : List LinkEvent
evening =
    signals ice "c1" ""
    ∷ begins
    ∷ signals ice "c2" ""
    ∷ signals offer "sdp" "sdp"
    ∷ ends
    ∷ signals ice "c3" ""
    ∷ signals answer "bad" "sdp"
    ∷ shuts
    ∷ []

link_run-AllFit_example : AllFit peer (link_run peer evening link).deeds
link_run-AllFit_example = link_run-AllFit peer evening link tt

-- Three candidates wait, the second of which is no JSON.
abbrev waiting_link : Link State
waiting_link = record link { queue = "c1" ∷ "{" ∷ "c3" ∷ [] }

take_offer_broken_example :
    let d = take_offer peer "sdp" "sdp" waiting_link in
    (d.1 ≡ false)
    × (d.0.queue ≡ [])
    × (answers_of d.0.deeds ≡ [])
    × (tried_of d.0.deeds ≡ [] ++ ("c1" ∷ []))
unfolding text_discrete ignores
take_offer_broken_example =
    take_offer_broken peer "sdp" "sdp" waiting_link ("c1" ∷ []) ("c3" ∷ []) "{" refl refl refl
      (refl, tt) refl

-- One side has sent its offer, and the other is making its own.
one_gives_way_example :
    ignores peer (side peer "ala" "ola" (false, true) [])
    ≡ not (ignores peer (side peer "ola" "ala" (true, false) (begins ∷ [])))
unfolding text_discrete link_run link_step begin_offer make_link
one_gives_way_example =
    one_gives_way peer "ala" "ola" (false, true) (true, false) [] (begins ∷ [])
      (text_eqb→ne "ala" "ola" refl) (inr refl) (inl refl)
