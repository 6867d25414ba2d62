-- ===== src/Server/Passkeys.antt =====
-- The routes of passkeys (server/src/webauthn.ts): the challenges that wait, the registered keys,
-- and what each route does with them.
use mekamb_chat.Common.{
  ℕ, ◌+◌, ◌*◌, String, append_text, Bool, true, false, not, ◌&&◌, Option, none, some, List, [], ◌∷◌,
  ◌++◌, map, if◌then◌else◌, ltb, text_eqb, find, filter, any,
}
use mekamb_chat.Server.Auth.State.{
  User, Server, Services, Fresh, Reply, refused, within_rate_limit, user_by_id, sign_in,
}
pub mod SingleUse
pub mod Admission

pub data Ceremony : Type 0 where
  registering logging_in : Ceremony

-- A row of `webauthn_challenges`.
pub record Challenge : Type 0 where
  pub user_id : Option String
  pub challenge : String
  pub ceremony : Ceremony
  pub expires_at : ℕ

-- A row of `webauthn_credentials`.
pub record Passkey : Type 0 where
  pub id : String
  pub user_id : String
  pub device_id : String
  pub public_key : String
  pub sign_count : ℕ
  pub label : Option String
  pub last_used_at : Option ℕ

-- What the browser sends: the key's id and the rest of the response.
pub record Response : Type 0 where
  pub id : String
  pub payload : String

-- Of the WebAuthn library: the challenge inside of a response, the check of a registration (the
-- key's id, its public key and its counter), and the check of an authentication (the new counter).
-- `none` is an exception or `verified: false`.
pub record Verifier : Type 0 where
  pub challenge_in : Response → Option String
  pub registered : Response → String → Option (String × String × ℕ)
  pub authenticated : Response → String → String → ℕ → Option ℕ

pub record Passkeys : Type 0 where
  pub server : Server
  pub challenges : List Challenge
  pub keys : List Passkey

-- The replies of these routes beside those of a login.
pub data Answer : Type 0 where
  failed : ℕ → String → Answer
  options : String → Answer
  registered_key : Answer
  replied : Reply → String → String → Answer

abbrev pub challenge_ttl_ms : ℕ
challenge_ttl_ms = 3 * 60 * 1000

abbrev pub is_registering : Ceremony → Bool
is_registering registering = true
is_registering logging_in = false

abbrev pub is_owned_by : String → Option String → Bool
is_owned_by user none = false
is_owned_by user (some owner) = text_eqb owner user

-- WHERE user_id = ? AND typ = 'rejestracja' AND expires_at > ?
abbrev pub is_own_registration : String → ℕ → Challenge → Bool
is_own_registration user now x =
    is_owned_by user x.user_id && (is_registering x.ceremony && ltb now x.expires_at)

-- WHERE challenge = ? AND typ = 'logowanie' AND expires_at > ?
abbrev pub is_login : String → ℕ → Challenge → Bool
is_login value now x =
    text_eqb x.challenge value && (not (is_registering x.ceremony) && ltb now x.expires_at)

abbrev pub key_by_id : String → Passkeys → Option Passkey
key_by_id id s = find (λ k. text_eqb k.id id) s.keys

-- POST /register/options; `value` is the challenge that the library draws.
unfoldable pub register_options : String → String → ℕ → Passkeys → Passkeys × Answer
register_options user value now s = elim (user_by_id user s.server) [
  | none ↦ (s, failed 404 "nie znaleziono konta")
  | some u ↦
      let row : Challenge = record {
        user_id = some user;
        challenge = value;
        ceremony = registering;
        expires_at = now + challenge_ttl_ms;
      } in
      (record s { challenges = s.challenges ++ row ∷ [] }, options value)
]

-- INSERT INTO webauthn_credentials; a key with that id makes it fail.
unfoldable pub insert_key : Passkey → Passkeys → Passkeys × Answer
insert_key k s =
    if any (λ o. text_eqb o.id k.id) s.keys
    then (s, failed 500 "Internal Server Error")
    else (record s { keys = s.keys ++ k ∷ [] }, registered_key)

-- POST /register/verify
unfoldable pub register_verify :
    Verifier → String → Option String → Response → Option String → ℕ → Passkeys → Passkeys × Answer
register_verify v user device response label now s =
    let t : Passkeys = record s {
      challenges = filter (λ x. not (is_own_registration user now x)) s.challenges;
    } in
    elim (find (is_own_registration user now) s.challenges) [
      | none ↦ (t, failed 401 "sesja rejestracji jest nieważna")
      | some row ↦ elim (v.registered response row.challenge) [
        | none ↦ (t, failed 400 "weryfikacja nie powiodła się")
        | some (id, public_key, counter) ↦
            insert_key
              (record {
                id = id;
                user_id = user;
                device_id = elim device [ none ↦ "nieznane" | some d ↦ d ];
                public_key = public_key;
                sign_count = counter;
                label = label;
                last_used_at = none;
              })
              t
      ]
    ]

-- POST /login/options; `address` is the one of the client.
unfoldable pub login_options : String → String → ℕ → Passkeys → Passkeys × Answer
login_options address value now s =
    let limited = within_rate_limit s.server (append_text "webauthn-login:" address) now in
    let row : Challenge = record {
      user_id = none;
      challenge = value;
      ceremony = logging_in;
      expires_at = now + challenge_ttl_ms;
    } in
    if limited.1
    then (record s { server = limited.0; challenges = s.challenges ++ row ∷ [] }, options value)
    else (record s { server = limited.0 }, failed 429 "zbyt wiele prób")

module _ (x : Services) (v : Verifier) where
  -- The library has checked the response: the counter is stored and the user is signed in.
  unfoldable pub accept_key :
      Passkey → User → Response → String → Bool → ℕ → ℕ → Fresh → Passkeys → Passkeys × Answer
  accept_key k u response device in_body counter now f s =
      let keys =
        map
          (λ o.
            if text_eqb o.id response.id
            then record o { sign_count = counter; last_used_at = some now }
            else o)
          s.keys in
      let signed = sign_in x k.user_id (some device) in_body now f s.server in
      (record s { server = signed.0; keys = keys }, replied signed.1 k.user_id u.username)

  unfoldable pub check_key :
      String → Response → String → Bool → ℕ → Fresh → Passkeys → Passkeys × Answer
  check_key value response device in_body now f s = elim (key_by_id response.id s) [
    | none ↦ (s, failed 401 "nieznany passkey")
    | some k ↦ elim (user_by_id k.user_id s.server) [
      | none ↦ (s, failed 401 "nieznany passkey")
      | some u ↦ elim (v.authenticated response value k.public_key k.sign_count) [
        | none ↦ (s, failed 401 "weryfikacja nie powiodła się")
        | some counter ↦ accept_key k u response device in_body counter now f s
      ]
    ]
  ]

  -- From the DELETE of the challenge on.
  unfoldable pub spend_challenge :
      String → Response → String → Bool → ℕ → Fresh → Passkeys → Passkeys × Answer
  spend_challenge value response device in_body now f s =
      let t : Passkeys = record s {
        challenges = filter (λ c. not (is_login value now c)) s.challenges;
      } in
      elim (find (is_login value now) s.challenges) [
        | none ↦ (t, failed 401 "sesja logowania jest nieważna")
        | some row ↦ check_key value response device in_body now f t
      ]

  -- POST /login/verify
  unfoldable pub login_verify :
      String → Response → String → Bool → ℕ → Fresh → Passkeys → Passkeys × Answer
  login_verify address response device in_body now f s =
      let limited = within_rate_limit s.server (append_text "webauthn-login:" address) now in
      let t : Passkeys = record s { server = limited.0 } in
      if not limited.1
      then (t, failed 429 "zbyt wiele prób")
      else if text_eqb device ""
      then (t, failed 400 "brak deviceId")
      else elim (v.challenge_in response) [
        | none ↦ (t, failed 400 "nieprawidłowa odpowiedź")
        | some value ↦ spend_challenge value response device in_body now f t
      ]
