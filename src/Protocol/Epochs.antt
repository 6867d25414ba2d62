-- ===== src/Protocol/Epochs.antt =====
-- Changes of a group by several members over one server: the messenger's claim of an epoch
-- (web/src/lib/messenger.ts, `zatwierdzIRozeslij`) meets the route (server/src/index.ts) and the object
-- that orders the commits (server/src/group.ts).
use mekamb_chat.Common.{
  ℕ, zero, suc, ◌≤◌, ◌≡◌, String, true, Option, none, some, List, [], ◌∷◌, ◌++◌, if◌then◌else◌,
}
use mekamb_chat.Server.Auth.State.{TokenPayload}
use mekamb_chat.Server.Relay.{epoch}
use mekamb_chat.Server.Routes.{Backend, Crypto, Answer, refused, claimed, relay_of, commit_route}
use mekamb_chat.Web.Echoes.{Known}
use mekamb_chat.Web.DeliveryTokens.{Storage}
use mekamb_chat.Web.Messenger.{
  Account, Pending, ClaimAnswer, answered, status, lost, Platform, Step, changed, saved, posted,
  granted, confirmed, discarded, World,
}
use mekamb_chat.Web.Messenger.Commits.{approve_and_send}

-- What becomes of a request: it arrives and its answer comes back, or one of them is lost.
pub data Fate : Type 0 where
  arrives request_lost answer_lost : Fate

-- The server, and what becomes of the next requests; those beyond the list arrive.
pub record Line : Type 0 where
  pub backend : Backend
  pub fates : List Fate

abbrev pub next_fate : List Fate → Fate × List Fate
next_fate [] = (arrives, [])
next_fate (f ∷ fs) = (f, fs)

-- What the client makes of the answer: the server has given a claim that was refused the status 409.
abbrev pub read_answer : Answer → ClaimAnswer
read_answer (claimed c) = if c.accepted then answered true else status 409
read_answer (refused code e) = status code
read_answer _ = lost

-- POST /groups/:groupId/commit over the line.
unfoldable pub send_claim :
    Crypto → TokenPayload → String → ℕ → Backend → Fate → Backend × ClaimAnswer
send_claim x payload id e s arrives =
    let (t, a) = commit_route x id (some e) payload s in (t, read_answer a)
send_claim x payload id e s request_lost = (s, lost)
send_claim x payload id e s answer_lost = ((commit_route x id (some e) payload s).0, lost)

unfoldable pub line_claim : Crypto → TokenPayload → String → ℕ → Line → Line × ClaimAnswer
line_claim x payload id e n =
    let (fate, fates) = next_fate n.fates in
    let (backend, answer) = send_claim x payload id e n.backend fate in
    (record { backend = backend; fates = fates }, answer)

abbrev pub epoch_on : String → Line → ℕ
epoch_on id n = epoch (relay_of id n.backend)

-- How many commits were merged.
abbrev pub merges : List Step → ℕ
merges [] = 0
merges (confirmed g ∷ l) = suc (merges l)
merges (granted g e ∷ l) = merges l
merges (changed ∷ l) = merges l
merges (saved ∷ l) = merges l
merges (posted u e ∷ l) = merges l
merges (discarded g ∷ l) = merges l

-- One epoch for each merge; `none` is a core that does not know the group.
abbrev pub times : ℕ → Option ℕ → List (Option ℕ)
times zero e = []
times (suc n) e = e ∷ times n e

-- A change of the group by a member whose core is in the state `client`.
pub record Attempt (C : Type 0) : Type 0 where
  pub me : Account
  pub now : ℕ
  pub client : C
  pub known : Known
  pub storage : Storage
  pub pending : Pending
  pub username : String

module _ {C : Type 0} (p : Platform C Line) (group : List ℕ) where
  abbrev pub world_of : Attempt C → Line → World C Line
  world_of a n = record {
    client = a.client;
    stored = none;
    known = a.known;
    storage = a.storage;
    net = n;
    journal = [];
  }

  unfoldable pub after_attempt : Attempt C → Line → World C Line
  unfolding approve_and_send
  after_attempt a n = (approve_and_send p a.me a.now group a.pending a.username (world_of a n)).1

  -- For each commit that a member merges, the epoch that the member's core is in before, which is the
  -- one that the commit ends; in the order of the attempts.
  unfoldable pub race : Line → List (Attempt C) → List (Option ℕ)
  unfolding after_attempt
  race n [] = []
  race n (a ∷ later) =
      let w = after_attempt a n in
      times (merges w.journal) (p.epoch group a.client) ++ race w.net later

-- Each epoch is known and above the one before, and the first at least `low`.
abbrev pub IsRising : ℕ → List (Option ℕ) → Type 0
IsRising low [] = Unit
IsRising low (none ∷ es) = ⊥
IsRising low (some e ∷ es) = (low ≤ e) × IsRising (suc e) es

-- What the claims and the deposits of the platform do to the server.
module _ {C : Type 0} where
  pub record OverLine (x : Crypto) (payload : TokenPayload) (p : Platform C Line) : Type 0 where
    pub claims : (id : String) (e : ℕ) (n : Line) → p.claim id e n ≡ line_claim x payload id e n
    pub posts :
        (user : String) (envelope : List ℕ) (header : Option String) (n : Line)
        → (p.post user envelope header n).0.backend.relays ≡ n.backend.relays
