-- ===== src/Web/Calls/Room.antt =====
-- A call with several people (web/src/lib/calls.ts, `Call`): one connection with each. Recording
-- devices and the servers for finding a way are the browser's.
use mekamb_chat.Common.{
  ℕ, ◌+◌, ◌≡◌, refl, String, Bool, true, false, not, ◌&&◌, Option, none, some, List, [], ◌∷◌, ◌++◌,
  map, filter, length, if◌then◌else◌, ltb, text_eqb, text_discrete, All, arith,
}
use mekamb_chat.Common.Keyed.{get, set}
use mekamb_chat.Server.Tokens.{bytes_eqb}
use mekamb_chat.Web.Calls.{
  Peer, Link, ended, SignalKind, offer, answer, ice, hangup, other, make_link, shut, begin_offer,
  end_offer, accept,
}

-- `MAX_UCZESTNIKOW`
abbrev pub max_people : ℕ
max_people = 4

-- The connections by name; `told` are those whom a hang-up was sent.
pub record Call (R : Type 0) : Type 0 where
  pub call_id : List ℕ
  pub me : String
  pub links : List (String × Link R)
  pub told : List String
  pub has_media : Bool

abbrev pub names : {R : Type 0} → List (String × Link R) → List String
names [] = []
names ((n, l) ∷ ls) = n ∷ names ls

module _ {R : Type 0} (p : Peer R) (fresh : R) where
  -- `utworzLink`
  unfoldable pub add_link : String → Call R → Call R
  add_link username c = record c {
    links = set text_discrete username (make_link p username c.me fresh) c.links;
  }

  -- The loop of `rozpocznij`, with the offers that are made; an exception ends it.
  unfoldable pub propose_all : List String → Call R → Option (Call R)
  unfolding begin_offer end_offer
  propose_all [] c = some c
  propose_all (u ∷ us) c =
      let (l, fine) = end_offer p (begin_offer p (make_link p u c.me fresh)) in
      let rest = propose_all us (record c { links = set text_discrete u l c.links }) in
      if fine then rest else none

  -- `rozpocznij`; `people` are the members of the group.
  unfoldable pub start : List ℕ → String → List String → Option (Call R)
  unfolding propose_all
  start call_id me people =
      let others = filter (λ u. not (text_eqb u me)) people in
      if ltb max_people (length others + 1)
      then none
      else propose_all others
          (record { call_id = call_id; me = me; links = []; told = []; has_media = true })

  -- A link that has taken a signal; the exception of `przyjmij` leaves it as it is then.
  unfoldable pub pass_on : String → SignalKind → String → String → Link R → Call R → Call R
  pass_on from kind payload print l c = record c {
    links = set text_discrete from (accept p kind payload print l).0 c.links;
  }

  abbrev pub is_offer : SignalKind → Bool
  is_offer offer = true
  is_offer answer = false
  is_offer ice = false
  is_offer hangup = false
  is_offer other = false

  -- The signal is for this call and this person.
  unfoldable pub take_from : String → SignalKind → String → String → Call R → Call R
  unfolding pass_on
  take_from from kind payload print c = elim (get text_discrete from c.links) [
    | some l ↦ pass_on from kind payload print l c
    | none ↦
        if is_offer kind then pass_on from kind payload print (make_link p from c.me fresh) c else c
  ]

  -- `przyjmijSygnal`
  unfoldable pub take_signal :
      String → SignalKind → List ℕ → String → String → String → Call R → Call R
  unfolding take_from
  take_signal from kind call_id payload print target c =
      if not (bytes_eqb call_id c.call_id)
      then c
      else if not (text_eqb target "") && not (text_eqb target c.me)
      then c
      else if text_eqb from c.me
      then c
      else take_from from kind payload print c

  -- `zakoncz`
  unfoldable pub finish : Bool → Call R → Call R × List (Link R)
  unfolding shut
  finish tell c = (
    record c {
      links = [];
      told = if tell then c.told ++ names c.links else c.told;
      has_media = false;
    },
    map (λ entry. shut p entry.1) c.links,
  )

  shut_all-ended :
      (ls : List (String × Link R)) → All (λ l. l.phase ≡ ended) (map (λ entry. shut p entry.1) ls)
  unfolding shut
  shut_all-ended [] = tt
  shut_all-ended (l ∷ ls) = (refl, shut_all-ended ls)

  -- Ending a call closes each of its connections, keeps none, and where it is asked to tells
  -- everyone who was connected, in the order of their coming.
  pub finish_lem :
      (tell : Bool) (c : Call R)
      → let (c', ls) = finish tell c in
        (c'.links ≡ [])
        × (length ls ≡ length c.links)
        × All (λ l. l.phase ≡ ended) ls
        × (c'.told ≡ (if tell then c.told ++ names c.links else c.told))
  unfolding finish
  finish_lem tell c = (refl, length_map c.links, shut_all-ended c.links, refl)
    where
      length_map :
          (ls : List (String × Link R)) → length (map (λ entry. shut p entry.1) ls) ≡ length ls
      length_map [] = refl
      length_map (l ∷ ls) = omega (arith, length_map ls)
