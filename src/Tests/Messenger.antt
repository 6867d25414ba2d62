-- ===== src/Tests/Messenger.antt =====
-- Runs of the messenger (web/src/lib/messenger.ts), the stock of tokens, the pairing and the finding
-- of conversations, with stand-ins for the core and the network.
use mekamb_chat.Common.{
  ℕ, ◌+◌, ◌≡◌, refl, String, Bool, true, false, Option, none, some, List, [], ◌∷◌, map,
  if◌then◌else◌, text_discrete, text_eqb, text_eqb→ne, arith,
}
use mekamb_chat.Server.Auth.State.{TokenPayload}
use mekamb_chat.Server.Routes.{Backend, Crypto}
use mekamb_chat.Server.Tokens.{to_hex}
use mekamb_chat.Web.DeliveryTokens.{Token, Issued, Trial, Storage, refill}
use mekamb_chat.Web.DeliveryTokens.Stock.{Refills, refill-Refills}
use mekamb_chat.Web.Direct.{find_direct, Found, find_direct-Found}
use mekamb_chat.Web.Messenger.{Account, commit, Pending, plain, Platform, World, other}
use mekamb_chat.Web.Messenger.Ensures.{IsTidy}
use mekamb_chat.Web.Messenger.Packing.{join_ids, split_ids}
use mekamb_chat.Web.Messenger.RoundTrips.{split_ids-join_ids}
use mekamb_chat.Web.Messenger.Traces.{Operation, adds, sends, handles, run, run-IsTidy}
use mekamb_chat.Protocol.Epochs.{
  arrives, answer_lost, Line, line_claim, Attempt, race, epoch_on, IsRising, OverLine,
}
use mekamb_chat.Protocol.NoFork.{race-IsRising}

-- A core that knows its epoch and whether a commit is prepared.
abbrev Core : Type 0
Core = ℕ × Bool

abbrev prepared : Pending
prepared = record { commit = 1 ∷ []; welcome = some (2 ∷ []) }

abbrev signing : Crypto
signing = record {
  hmac = λ body. body;
  payload_in = λ body. none;
  from_base64 = λ t. some [];
  verify_delivery = λ a b. some true;
}

abbrev payload : TokenPayload
payload = record { user_id = "u1"; device_id = some "phone"; expires_at = 100000 }

abbrev platform : Platform Core Line
platform = record {
  create_conversation = λ c. (c, some (7 ∷ []));
  epoch = λ g c. some c.0;
  members = λ g c. some ("ala:phone" ∷ "ala:laptop" ∷ "ola:tablet" ∷ []);
  add_members = λ g packages c. ((c.0, true), some prepared);
  remove_device = λ g device c. ((c.0, true), some (some prepared));
  commit_pending = λ g c. ((c.0, true), some prepared);
  confirm_commit = λ g c. ((c.0 + 1, false), some tt);
  discard_commit = λ g c. ((c.0, false), some tt);
  leave_conversation = λ g c. (c, some []);
  seal = λ g content now c. (c, some (3 ∷ [], 4 ∷ []));
  join_from_welcome = λ bytes c. (c, none);
  match_envelope = λ bytes c. some (some (7 ∷ []));
  receive = λ g bytes c. (c, some other);
  encode_envelope = λ g kind bytes. bytes;
  decode_envelope = λ bytes. some (commit, bytes);
  relay_id = λ g. "relay";
  digest = λ bytes. "digest";
  fits = λ s. true;
  claim = line_claim signing payload;
  post = λ user envelope header n. (n, true);
  devices_of = λ user n. (n, some ("tablet" ∷ []));
  claim_package = λ device n. (n, some (9 ∷ []));
  remove_from_directory = λ device n. (n, true);
}

abbrev over : OverLine signing payload platform
over = record { claims = λ id e n. refl; posts = λ user envelope header n. refl }

abbrev backend : Backend
backend = record {
  users = [];
  tables = record { devices = []; packages = []; refreshes = [] };
  spent = [];
  mailboxes = [];
  relays = ("relay", record { epoch_row = some 4 }) ∷ [];
}

-- The second answer is lost on its way.
abbrev line : Line
line = record { backend = backend; fates = arrives ∷ answer_lost ∷ [] }

abbrev ala : Account
ala = record { user_id = "ala"; device_id = "phone" }

abbrev storage : Storage
storage = record { stock = none; pinned_key = some "key" }

abbrev attempt : ℕ → Attempt Core
attempt e = record {
  me = ala;
  now = 1000;
  client = (e, true);
  known = [];
  storage = storage;
  pending = prepared;
  username = "ola";
}

race-IsRising_example :
    IsRising
      (epoch_on "relay" line)
      (race platform (7 ∷ []) line (attempt 4 ∷ attempt 4 ∷ attempt 5 ∷ []))
race-IsRising_example =
    race-IsRising signing payload platform over (7 ∷ []) line
      (attempt 4 ∷ attempt 4 ∷ attempt 5 ∷ [])

abbrev world : World Core Line
world = record {
  client = (4, false);
  stored = none;
  known = [];
  storage = storage;
  net = line;
  journal = [];
}

abbrev busy : List (ℕ × Operation)
busy =
    (1000, adds (7 ∷ []) "ola")
    ∷ (2000, sends (7 ∷ []) (plain "hej"))
    ∷ (3000, handles (1 ∷ []))
    ∷ []

run-IsTidy_example : IsTidy (run platform ala busy world).journal
run-IsTidy_example = run-IsTidy platform ala busy world tt

abbrev message_ids : List (List ℕ)
message_ids =
    (0 ∷ 1 ∷ 2 ∷ 3 ∷ 4 ∷ 5 ∷ 6 ∷ 7 ∷ 8 ∷ 9 ∷ 10 ∷ 11 ∷ 12 ∷ 13 ∷ 14 ∷ 255 ∷ [])
    ∷ (16 ∷ 1 ∷ 2 ∷ 3 ∷ 4 ∷ 5 ∷ 6 ∷ 7 ∷ 8 ∷ 9 ∷ 10 ∷ 11 ∷ 12 ∷ 13 ∷ 14 ∷ 254 ∷ [])
    ∷ []

split_ids-join_ids_example : split_ids (join_ids (map to_hex message_ids)) ≡ map to_hex message_ids
split_ids-join_ids_example = split_ids-join_ids message_ids (omega arith)

abbrev unblind : Trial → Issued → String → Option Token
unblind t i key =
    if text_eqb i.response key
    then some (record { seed = t.seed; unblinded = i.evaluated })
    else none

abbrev trial : Trial
trial = record { seed = "seed"; blinder = "blinder"; blinded = "blinded" }

abbrev issued : Issued
issued = record { evaluated = "token"; challenge = "challenge"; response = "key" }

refill-Refills_example :
    Refills unblind "key" 1 storage
      (refill unblind true (some "key") (trial ∷ []) (some (issued ∷ [])) storage)
unfolding text_discrete
refill-Refills_example =
    refill-Refills unblind true (some "key") (trial ∷ []) (some (issued ∷ [])) "key" storage refl
      (text_eqb→ne "key" "" refl)

abbrev known_members : List ℕ → Option (List String)
known_members [] = none
known_members (g ∷ gs) = some ("ala" ∷ "ola" ∷ "ala" ∷ [])

find_direct-Found_example :
    Found known_members
      ([] ∷ (1 ∷ []) ∷ [])
      "ala"
      "ola"
      (find_direct known_members ([] ∷ (1 ∷ []) ∷ []) "ala" "ola")
unfolding text_discrete
find_direct-Found_example =
    find_direct-Found known_members ([] ∷ (1 ∷ []) ∷ []) "ala" "ola" (text_eqb→ne "ala" "ola" refl)
