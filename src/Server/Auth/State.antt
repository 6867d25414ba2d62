-- ===== src/Server/Auth/State.antt =====
-- The tables that authentication works on, the answers it gives, and what it takes from elsewhere
-- (server/src/auth.ts, session.ts).
use mekamb_chat.Common.{
  ℕ, ◌+◌, ◌*◌, String, Bool, true, false, not, ◌&&◌, Option, none, some, List, [], ◌∷◌, ◌++◌, ltb,
  if◌then◌else◌, text_eqb, filter, any, find, map,
}
use mekamb_chat.Common.Int.{ℤ}
use mekamb_chat.Server.RateLimit.{Rate, Buckets, consume}

pub data Status : Type 0 where
  pending active : Status

-- A row of `users`.
pub record User : Type 0 where
  pub id : String
  pub username : String
  pub opaque_record : String
  pub totp_secret_enc : String
  pub status : Status
  pub last_counter : Option ℤ

pub data Stage : Type 0 where
  awaiting_opaque awaiting_totp : Stage

-- A row of `login_sessions`; `user_id` is NULL for an unknown name.
pub record Session : Type 0 where
  pub id : String
  pub user_id : Option String
  pub expected : String
  pub stage : Stage
  pub expires_at : ℕ

-- A row of `refresh_tokens`.
pub record Refresh : Type 0 where
  pub id : String
  pub user_id : String
  pub device_id : String
  pub token_hash : String
  pub expires_at : ℕ

pub record Server : Type 0 where
  pub users : List User
  pub sessions : List Session
  pub refreshes : List Refresh
  pub buckets : Buckets

pub record TokenPayload : Type 0 where
  pub user_id : String
  pub device_id : Option String
  pub expires_at : ℕ

-- OPAQUE, the cipher of the secrets, the TOTP library, the signature of tokens and the hash of
-- refresh tokens. `none` is an exception.
pub record Services : Type 0 where
  pub registration_start : String → String → Option String
  pub registration_finish : String → Option String
  pub login_start : String → Option String → String → Option (String × String)
  pub login_finish : String → String → String → Bool
  pub encrypt : String → String → String
  pub decrypt : String → Option String
  pub totp_validate : String → List ℕ → ℕ → Option ℤ
  pub provisioning_uri : String → String → String
  pub sign : TokenPayload → String
  pub hash : String → String

-- The random values that a request draws.
pub record Fresh : Type 0 where
  pub uuid : String
  pub row_uuid : String
  pub iv : String
  pub totp_secret : String
  pub refresh_token : String

-- A signed-in answer: the token, the cookie that is set, and the refresh token in the body.
pub record Grant : Type 0 where
  pub token : String
  pub expires_at : ℕ
  pub cookie : Option String
  pub in_body : Option String

pub data Reply : Type 0 where
  refused : ℕ → String → Reply
  refused_cleared : ℕ → String → Reply
  registration : String → Reply
  enrolled : String → String → Reply
  challenged : String → String → Reply
  totp_required : String → Reply
  signed_in : Grant → Reply
  signed_out : Reply

abbrev pub login_session_ttl_ms : ℕ
login_session_ttl_ms = 3 * 60 * 1000

abbrev pub token_ttl_ms : ℕ
token_ttl_ms = 24 * 60 * 60 * 1000

abbrev pub refresh_token_ttl_ms : ℕ
refresh_token_ttl_ms = 30 * 24 * 60 * 60 * 1000

-- 5 in a row, one more every 30 seconds.
abbrev pub login_bucket : Rate
login_bucket = record { capacity = 5; refill = 1; per = 30 }

-- `withinRateLimit`
unfoldable pub within_rate_limit : Server → String → ℕ → Server × Bool
within_rate_limit s key now =
    let answer = consume s.buckets key login_bucket now in
    (record s { buckets = answer.0 }, answer.1.allowed)

abbrev pub stage_eqb : Stage → Stage → Bool
stage_eqb awaiting_opaque awaiting_opaque = true
stage_eqb awaiting_opaque awaiting_totp = false
stage_eqb awaiting_totp awaiting_opaque = false
stage_eqb awaiting_totp awaiting_totp = true

-- WHERE id = ? AND stage = ? AND expires_at > ?
abbrev pub is_open : String → Stage → ℕ → Session → Bool
is_open id stage now x = text_eqb x.id id && stage_eqb x.stage stage && ltb now x.expires_at

-- DELETE … RETURNING: the row, and the table without it.
unfoldable pub take_session : String → Stage → ℕ → Server → Option Session
take_session id stage now s = find (is_open id stage now) s.sessions

unfoldable pub drop_session : String → Stage → ℕ → Server → Server
drop_session id stage now s = record s {
  sessions = filter (λ x. not (is_open id stage now x)) s.sessions;
}

-- INSERT INTO login_sessions: `none` where the primary key is there already.
unfoldable pub insert_session : Session → Server → Option Server
insert_session x s =
    if any (λ y. text_eqb y.id x.id) s.sessions
    then none
    else some (record s { sessions = s.sessions ++ x ∷ [] })

unfoldable pub user_by_id : String → Server → Option User
user_by_id id s = find (λ u. text_eqb u.id id) s.users

unfoldable pub user_by_name : String → Server → Option User
user_by_name name s = find (λ u. text_eqb u.username name) s.users

-- UPDATE users SET totp_last_counter = ? WHERE id = ?
unfoldable pub set_counter : String → ℤ → Server → Server
set_counter id k s = record s {
  users = map (λ u. if text_eqb u.id id then record u { last_counter = some k } else u) s.users;
}

-- A row of `refresh_tokens` for the device: new, or in place of the one it had.
abbrev pub upsert_refresh : Refresh → List Refresh → List Refresh
upsert_refresh x [] = x ∷ []
upsert_refresh x (y ∷ ys) =
    if text_eqb y.device_id x.device_id then x ∷ ys else y ∷ upsert_refresh x ys

-- `body.deviceId`, where it is given and not empty.
abbrev pub truthy : Option String → Option String
truthy none = none
truthy (some d) = if text_eqb d "" then none else some d

module _ (x : Services) where
  -- `issueRefreshToken`; the raw token is `f.refresh_token`.
  unfoldable pub issue_refresh_token : String → String → ℕ → Fresh → Server → Server
  issue_refresh_token user_id device_id now f s =
      let row : Refresh = record {
        id = f.row_uuid;
        user_id = user_id;
        device_id = device_id;
        token_hash = x.hash f.refresh_token;
        expires_at = now + refresh_token_ttl_ms;
      } in
      record s { refreshes = upsert_refresh row s.refreshes }

  -- The end of `register/confirm` and of `login/totp`: the access token, and a lasting session
  -- where the request names a device.
  unfoldable pub sign_in : String → Option String → Bool → ℕ → Fresh → Server → Server × Reply
  unfolding issue_refresh_token
  sign_in user_id device in_body now f s =
      let expires = now + token_ttl_ms in
      let token = x.sign (record { user_id = user_id; device_id = device; expires_at = expires }) in
      elim (truthy device) [
        | none ↦ (
          s,
          signed_in (record { token = token; expires_at = expires; cookie = none; in_body = none }),
        )
        | some d ↦ (
          issue_refresh_token user_id d now f s,
          signed_in (record {
            token = token;
            expires_at = expires;
            cookie = some f.refresh_token;
            in_body = if in_body then some f.refresh_token else none;
          }),
        )
      ]
