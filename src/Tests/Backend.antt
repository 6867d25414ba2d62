-- ===== src/Tests/Backend.antt =====
-- Runs of the Worker's routes (server/src/index.ts), of the change of the one-time code
-- (server/src/auth.ts) and of the cleaning of attachments (server/src/attachments.ts).
use mekamb_chat.Common.{
  ℕ, ◌*◌, ◌≤◌, ◌<◌, ◌≡◌, ◌⊎◌, refl, String, true, none, some, List, [], ◌∷◌, length, text_discrete,
}
use mekamb_chat.Common.Keyed.{get}
use mekamb_chat.Server.Auth.State.{User, user_by_id}
use mekamb_chat.Server.Auth.Login.{active_user}
use mekamb_chat.Server.Auth.Totp.{verify_code, is_replay}
use mekamb_chat.Server.Inbox.{Connected, queued, connect, deposit, max_envelope_bytes}
use mekamb_chat.Server.Directory.{username_for}
use mekamb_chat.Server.Tokens.{redeem, insert_or_ignore}
use mekamb_chat.Server.Routes.{
  Backend, Crypto, split_last_dot, split_dots, verify_token, connect_mailbox, connect_route,
  mailbox_of, deposit_route, deposit_checked, deposit_with, spend, deliver_spent, deliver,
}
use mekamb_chat.Server.Routes.Access.{Admits, connect_route_sound}
use mekamb_chat.Server.Routes.Deposits.{Paid, deposit_route_sound}
use mekamb_chat.Server.TotpChange.{
  Change, change_start, reauthenticate, by_old_code, use_window, issue_secret,
}
use mekamb_chat.Server.TotpChange.Admission.{ByCode, ByKey, change_start_sound}
use mekamb_chat.Server.TotpChange.Effects.{secret_in}
use mekamb_chat.Server.TotpChange.Reauthentication.{
  asks, starts, confirms, Request, run, restarted, secret_in-run, step,
}
use mekamb_chat.Server.Attachments.{Stored}
use mekamb_chat.Tests.Auth.{stand_ins, draws, six_digits, verifier, with_passkey, ala}

-- A token is the name of its account twice.
abbrev crypto : Crypto
crypto = record {
  hmac = λ body. body;
  payload_in =
      λ body. some (record { user_id = body; device_id = some "phone"; expires_at = 9000 });
  from_base64 = λ t. some (1 ∷ []);
  verify_delivery = λ a b. some true;
}

abbrev backend : Backend
backend = record {
  users = ala ∷ [];
  tables = record { devices = []; packages = []; refreshes = [] };
  spent = [];
  mailboxes = [];
  relays = [];
}

abbrev opened : Connected
unfolding connect_route
opened = connect (mailbox_of "ala" backend) true (some "phone") 3 1000

connect_route_sound_example : Admits crypto "ala" true (some "u1.u1") 3 1000 backend opened
unfolding text_discrete connect_route verify_token username_for connect_mailbox split_last_dot
connect_route_sound_example =
    connect_route_sound crypto "ala" true 3 1000 backend (some "u1.u1") opened refl

abbrev envelope : List ℕ
envelope = 5 ∷ []

deposit_route_sound_example :
    (0 < length envelope)
    × (length envelope ≤ max_envelope_bytes)
    × Paid crypto true (some "seed.token") backend
unfolding text_discrete deposit_route deposit_checked deposit_with spend deliver_spent deliver
    redeem insert_or_ignore deposit split_dots
deposit_route_sound_example =
    deposit_route_sound crypto true "ala" [] envelope (some "seed.token") 1000 backend (some queued)
      refl

-- Nothing waits yet.
abbrev change : Change
change = record { passkeys = with_passkey; reauths = []; pendings = [] }

change_start_sound_example :
    let t = (change_start stand_ins verifier "u1" (some six_digits) none 1000 draws change).0 in
    (u : User) × (active_user (user_by_id "u1" change.passkeys.server) ≡ some u)
    × (ByCode stand_ins verifier u (some six_digits) 1000 change t
        ⊎ ByKey stand_ins verifier u none 1000 change t)
unfolding text_discrete change_start user_by_id reauthenticate by_old_code verify_code use_window
    is_replay issue_secret
change_start_sound_example =
    change_start_sound stand_ins verifier "u1" (some six_digits) none 1000 draws change "secret"
      "secret" refl

-- Someone else asks and confirms, and the user confirms with nothing to confirm.
abbrev requests : List (ℕ × Request)
requests =
    (1000, asks "u2" "c9")
    ∷ (1100, starts "u2" (some six_digits) none draws)
    ∷ (1200, confirms "u2" six_digits)
    ∷ (1300, confirms "u1" six_digits)
    ∷ []

secret_in-run_example :
    secret_in "u1" (run stand_ins verifier requests change) ≡ secret_in "u1" change
unfolding text_discrete restarted step get
secret_in-run_example = secret_in-run stand_ins verifier "u1" requests change refl refl

abbrev day : ℕ
day = 24 * 60 * 60 * 1000

abbrev blob : String → ℕ → Stored
blob key at = record { key = key; bytes = 1 ∷ []; uploaded_at = some at; uploaded_by = "u1" }
