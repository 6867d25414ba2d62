-- ===== src/Server/TotpChange.antt =====
-- The change of the one-time code (server/src/auth.ts, the routes /totp/change/options, /start and
-- /confirm). The rows of `webauthn_challenges` with the type 'reauth-totp' and the column
-- `totp_secret_pending_enc` are tables of their own here, as no other route reads them.
use mekamb_chat.Common.{
  ℕ, ◌+◌, ◌*◌, String, Bool, true, false, not, ◌&&◌, Option, none, some, List, [], ◌∷◌, ◌++◌, map,
  if◌then◌else◌, ltb, text_eqb, text_discrete, find, filter,
}
use mekamb_chat.Common.Int.{ℤ}
use mekamb_chat.Common.Keyed.{get, set, delete}
use mekamb_chat.Server.Auth.State.{User, Server, Services, Fresh, user_by_id, set_counter}
use mekamb_chat.Server.Auth.Login.{active_user}
use mekamb_chat.Server.Auth.Totp.{verify_code, is_replay}
use mekamb_chat.Server.Passkeys.{Passkey, Response, Verifier, Passkeys}
pub mod Effects
pub mod Reauthentication
pub mod Admission

-- A row of `webauthn_challenges` with typ = 'reauth-totp'.
pub record Reauth : Type 0 where
  pub user_id : String
  pub challenge : String
  pub expires_at : ℕ

pub record Change : Type 0 where
  pub passkeys : Passkeys
  pub reauths : List Reauth
  pub pendings : List (String × String)

pub data Reply : Type 0 where
  refused : ℕ → String → Reply
  options : String → Reply
  started : String → String → Reply
  confirmed : Reply

-- `REAUTH_CHALLENGE_TTL_MS`
abbrev pub reauth_ttl_ms : ℕ
reauth_ttl_ms = 3 * 60 * 1000

-- WHERE challenge = ? AND typ = 'reauth-totp' AND user_id = ? AND expires_at > ?
abbrev pub is_reauth : String → String → ℕ → Reauth → Bool
is_reauth value user now r =
    text_eqb r.challenge value && (text_eqb r.user_id user && ltb now r.expires_at)

-- WHERE id = ? AND user_id = ?
abbrev pub own_key : String → String → Change → Option Passkey
own_key id user s = find (λ k. text_eqb k.id id && text_eqb k.user_id user) s.passkeys.keys

abbrev pub with_server : Server → Change → Change
with_server t s = record s { passkeys = record s.passkeys { server = t } }

-- POST /totp/change/options; `value` is the challenge that the library draws.
unfoldable pub change_options : String → String → ℕ → Change → Change × Reply
change_options user value now s =
    let row : Reauth = record {
      user_id = user;
      challenge = value;
      expires_at = now + reauth_ttl_ms;
    } in
    (record s { reauths = s.reauths ++ row ∷ [] }, options value)

module _ (x : Services) (v : Verifier) where
  -- The new secret waits; the active one stays.
  unfoldable pub issue_secret : User → Fresh → Change → Change × Reply
  issue_secret u f s = (
    record s { pendings = set text_discrete u.id (x.encrypt f.iv f.totp_secret) s.pendings },
    started f.totp_secret (x.provisioning_uri f.totp_secret u.username),
  )

  -- The first way: a code of the old secret, in a window not used before.
  unfoldable pub use_window : User → ℤ → Fresh → Change → Change × Reply
  unfolding is_replay set_counter
  use_window u k f s =
      if is_replay k u.last_counter
      then (s, refused 401 "nieprawidłowy kod")
      else issue_secret u f (with_server (set_counter u.id k s.passkeys.server) s)

  unfoldable pub by_old_code : User → List ℕ → ℕ → Fresh → Change → Change × Reply
  unfolding verify_code
  by_old_code u code now f s = elim (x.decrypt u.totp_secret_enc) [
    | none ↦ (s, refused 500 "Internal Server Error")
    | some secret ↦ elim (verify_code x secret code now) [
      | none ↦ (s, refused 401 "nieprawidłowy kod")
      | some k ↦ use_window u k f s
    ]
  ]

  -- UPDATE webauthn_credentials SET sign_count = ?, last_used_at = ? WHERE id = ?
  unfoldable pub touch_key : String → ℕ → ℕ → Change → Change
  touch_key id counter now s = record s {
    passkeys = record s.passkeys {
      keys =
          map
            (λ o.
              if text_eqb o.id id
              then record o { sign_count = counter; last_used_at = some now }
              else o)
            s.passkeys.keys;
    };
  }

  unfoldable pub verify_key : User → String → Response → ℕ → Fresh → Change → Change × Reply
  verify_key u value response now f s = elim (own_key response.id u.id s) [
    | none ↦ (s, refused 401 "nieznany passkey")
    | some k ↦ elim (v.authenticated response value k.public_key k.sign_count) [
      | none ↦ (s, refused 401 "weryfikacja nie powiodła się")
      | some counter ↦ issue_secret u f (touch_key response.id counter now s)
    ]
  ]

  -- The second way: a passkey of the user, for a challenge given to the user.
  unfoldable pub spend_reauth : User → String → Response → ℕ → Fresh → Change → Change × Reply
  spend_reauth u value response now f s =
      let t : Change = record s {
        reauths = filter (λ r. not (is_reauth value u.id now r)) s.reauths;
      } in
      elim (find (is_reauth value u.id now) s.reauths) [
        | none ↦ (t, refused 401 "sesja potwierdzenia jest nieważna")
        | some row ↦ verify_key u value response now f t
      ]

  unfoldable pub by_passkey : User → Response → ℕ → Fresh → Change → Change × Reply
  by_passkey u response now f s = elim (v.challenge_in response) [
    | none ↦ (s, refused 400 "nieprawidłowa odpowiedź")
    | some value ↦ spend_reauth u value response now f s
  ]

  -- One of the two ways, by what the body holds: an empty code counts as none.
  unfoldable pub reauthenticate :
      User → Option (List ℕ) → Option Response → ℕ → Fresh → Change → Change × Reply
  reauthenticate u (some (c ∷ cs)) response now f s = by_old_code u (c ∷ cs) now f s
  reauthenticate u (some []) (some response) now f s = by_passkey u response now f s
  reauthenticate u none (some response) now f s = by_passkey u response now f s
  reauthenticate u (some []) none now f s = (s, refused 400 "wymagany passkey albo aktualny kod")
  reauthenticate u none none now f s = (s, refused 400 "wymagany passkey albo aktualny kod")

  -- POST /totp/change/start, for the user of the access token.
  unfoldable pub change_start :
      String → Option (List ℕ) → Option Response → ℕ → Fresh → Change → Change × Reply
  change_start user code response now f s = elim (active_user (user_by_id user s.passkeys.server)) [
    | none ↦ (s, refused 404 "konto nie istnieje")
    | some u ↦ reauthenticate u code response now f s
  ]

  -- The pending secret becomes the active one, and its first window is used.
  unfoldable pub switch_secret : String → String → ℤ → Change → Change
  switch_secret user sealed k s =
      let t = s.passkeys.server in
      record s {
        passkeys = record s.passkeys {
          server = record t {
            users =
                map
                  (λ u.
                    if text_eqb u.id user
                    then record u { totp_secret_enc = sealed; last_counter = some k }
                    else u)
                  t.users;
          };
        };
        pendings = delete text_discrete user s.pendings;
      }

  unfoldable pub confirm_pending : String → String → List ℕ → ℕ → Change → Change × Reply
  unfolding verify_code
  confirm_pending user sealed code now s = elim (x.decrypt sealed) [
    | none ↦ (s, refused 500 "Internal Server Error")
    | some secret ↦ elim (verify_code x secret code now) [
      | none ↦ (s, refused 401 "nieprawidłowy kod")
      | some k ↦ (switch_secret user sealed k s, confirmed)
    ]
  ]

  abbrev pub known_pending : Option User → Option String → Option String
  known_pending none pending = none
  known_pending (some u) pending = pending

  -- POST /totp/change/confirm
  unfoldable pub change_confirm : String → List ℕ → ℕ → Change → Change × Reply
  change_confirm user code now s =
      elim (known_pending (user_by_id user s.passkeys.server) (get text_discrete user s.pendings)) [
        | none ↦ (s, refused 400 "nie ma czego potwierdzać")
        | some sealed ↦ confirm_pending user sealed code now s
      ]
