-- ===== src/Tests/Auth.antt =====
-- Runs of the authentication service (server/src/auth.ts) with stand-ins for its cryptography.
use mekamb_chat.Common.{
  ℕ, ◌≡◌, ◌≢◌, refl, true, false, none, some, List, [], ◌∷◌, arith, text_discrete, text_eqb,
  text_eqb→ne,
}
use mekamb_chat.Common.Keyed.{get, set}
use mekamb_chat.Server.RateLimit.{consume, refilled}
use mekamb_chat.Common.Int.{pos}
use mekamb_chat.Server.Auth.State.{
  active, User, Session, awaiting_totp, Server, Services, Fresh, take_session, user_by_id,
  within_rate_limit,
}
use mekamb_chat.Server.Auth.Login.{login_start, login_finish, login_totp}
use mekamb_chat.Server.Auth.Lasting.{exchange}
use mekamb_chat.Server.Auth.History.{starts, finishes, Arrival, serve, is_signed_in, finished}
use mekamb_chat.Server.Auth.TwoFactor.{both_factors}
use mekamb_chat.Server.Auth.CodeWindow.{Passed, login_totp_sound}
use mekamb_chat.Server.Auth.Rotation.{exchange_rotates}
use mekamb_chat.Server.Passkeys.{
  Response, Verifier, Passkeys, logging_in, login_verify, spend_challenge, check_key, accept_key,
}
use mekamb_chat.Server.Passkeys.SingleUse.{
  is_replied, ask_registration, ask_login, serve_all, challenge_once,
}
use mekamb_chat.Server.Passkeys.Admission.{Admitted, login_verify_sound}

-- The proof of a password is the text of its state, and every code of six digits is of this window.
abbrev pub stand_ins : Services
stand_ins = record {
  registration_start = λ name request. some request;
  registration_finish = λ upload. some upload;
  login_start = λ name envelope ke1. some ("challenge", "expected");
  login_finish = λ expected name ke3. text_eqb expected ke3;
  encrypt = λ iv secret. secret;
  decrypt = λ sealed. some sealed;
  totp_validate = λ secret code now. some (pos 0);
  provisioning_uri = λ secret name. secret;
  sign = λ payload. payload.user_id;
  hash = λ token. token;
}

abbrev pub draws : Fresh
draws = record {
  uuid = "login-1";
  row_uuid = "row-2";
  iv = "iv";
  totp_secret = "secret";
  refresh_token = "token-2";
}

abbrev draws_next : Fresh
draws_next = record {
  uuid = "login-2";
  row_uuid = "row-3";
  iv = "iv";
  totp_secret = "secret";
  refresh_token = "token-3";
}

abbrev pub ala : User
ala = record {
  id = "u1";
  username = "ala";
  opaque_record = "record";
  totp_secret_enc = "secret";
  status = active;
  last_counter = none;
}

-- One account with a lasting session on its phone.
abbrev pub server : Server
server = record {
  users = ala ∷ [];
  sessions = [];
  refreshes =
      record {
        id = "row-1";
        user_id = "u1";
        device_id = "phone";
        token_hash = "token-1";
        expires_at = 100000000;
      }
      ∷ [];
  buckets = [];
}

abbrev pub six_digits : List ℕ
six_digits = 49 ∷ 50 ∷ 51 ∷ 52 ∷ 53 ∷ 54 ∷ []

abbrev two_rounds : List Arrival
two_rounds =
    record { request = starts "ala" "ke1"; now = 1000; fresh = draws }
    ∷ record { request = finishes "login-1" "ala" "expected"; now = 2000; fresh = draws }
    ∷ []

both_factors_example : finished "login-1" (serve stand_ins server [] two_rounds).1 ≡ true
unfolding text_discrete login_totp consume refilled get serve login_finish login_start set
both_factors_example =
    both_factors stand_ins server two_rounds "login-1" six_digits none false 3000 draws refl refl

abbrev waiting_login : Server
waiting_login = record server {
  sessions =
      record {
        id = "login-1";
        user_id = some "u1";
        expected = "";
        stage = awaiting_totp;
        expires_at = 200000;
      }
      ∷ [];
}

login_totp_sound_example :
    (row : Session) × (u : User) × (take_session "login-1" awaiting_totp 3000 waiting_login
      ≡ some row)
    × (row.user_id ≡ some u.id)
    × (user_by_id u.id waiting_login ≡ some u)
    × Passed stand_ins
        (login_totp stand_ins waiting_login "login-1" six_digits none false 3000 draws).0
        u
        six_digits
        3000
unfolding text_discrete login_totp consume refilled get
login_totp_sound_example =
    login_totp_sound stand_ins waiting_login "login-1" six_digits none false 3000 draws refl

token_2_ne_1 : stand_ins.hash "token-2" ≢ stand_ins.hash "token-1"
unfolding text_discrete
token_2_ne_1 = text_eqb→ne "token-2" "token-1" refl

exchange_rotates_example :
    is_signed_in
      (exchange stand_ins
        (exchange stand_ins server "token-1" "phone" false 1000 draws).0
        "token-1"
        "phone"
        false
        2000
        draws_next).1
    ≡ false
unfolding text_discrete exchange consume refilled get
exchange_rotates_example =
    exchange_rotates stand_ins server "token-1" "phone" false false 1000 2000 draws draws_next
      ((refl, tt)) token_2_ne_1 refl

-- A library that takes every response with the text of its challenge.
abbrev pub verifier : Verifier
verifier = record {
  challenge_in = λ r. some r.payload;
  registered = λ r challenge. none;
  authenticated = λ r challenge public_key counter. some 8;
}

-- A key of the account and an open challenge.
abbrev pub with_passkey : Passkeys
with_passkey = record {
  server = server;
  challenges =
      record { user_id = none; challenge = "c1"; ceremony = logging_in; expires_at = 50000 } ∷ [];
  keys =
      record {
        id = "key";
        user_id = "u1";
        device_id = "laptop";
        public_key = "cose";
        sign_count = 7;
        label = none;
        last_used_at = none;
      }
      ∷ [];
}

abbrev pub response : Response
response = record { id = "key"; payload = "c1" }

challenge_once_example :
    is_replied
      (login_verify stand_ins verifier "2.2.2.2" response "phone" true 3000 draws_next (
        serve_all stand_ins verifier
          (ask_login "3.3.3.3" "c2" 2000 ∷ ask_registration "u1" "c3" 2500 ∷ [])
          (login_verify stand_ins verifier "1.1.1.1" response "laptop" false 1000 draws
            with_passkey).0)).1
    ≡ false
unfolding login_verify within_rate_limit consume refilled get text_discrete spend_challenge
    check_key user_by_id accept_key
challenge_once_example =
    challenge_once stand_ins verifier "c1" "1.1.1.1" "2.2.2.2" response response "laptop" "phone"
      false true 1000 3000 draws draws_next with_passkey
      (ask_login "3.3.3.3" "c2" 2000 ∷ ask_registration "u1" "c3" 2500 ∷ []) refl refl
      (text_eqb→ne "c2" "c1" refl, (tt, tt)) (omega arith) refl

login_verify_sound_example : Admitted verifier response 1000 with_passkey
unfolding login_verify within_rate_limit consume refilled get text_discrete spend_challenge
    check_key user_by_id accept_key
login_verify_sound_example =
    login_verify_sound stand_ins verifier "1.1.1.1" response "laptop" false 1000 draws with_passkey
      refl
