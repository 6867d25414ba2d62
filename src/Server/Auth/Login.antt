-- ===== src/Server/Auth/Login.antt =====
-- The three rounds of a login: `/login/start`, `/login/finish`, `/login/totp` (server/src/auth.ts).
use mekamb_chat.Common.{ℕ, ◌+◌, String, append_text, Bool, Option, none, some, List, if◌then◌else◌}
use mekamb_chat.Common.Int.{ℤ}
use mekamb_chat.Server.RateLimit.{reset}
use mekamb_chat.Server.Auth.State.{
  Status, pending, active, User, awaiting_opaque, awaiting_totp, Server, Services, Fresh, Reply,
  refused, challenged, totp_required, login_session_ttl_ms, within_rate_limit, take_session,
  drop_session, insert_session, user_by_id, user_by_name, set_counter, sign_in,
}
use mekamb_chat.Server.Auth.Totp.{verify_code, is_replay}

-- AND status = 'active'
abbrev pub only_active : Status → User → Option User
only_active active u = some u
only_active pending u = none

abbrev pub active_user : Option User → Option User
active_user none = none
active_user (some u) = only_active u.status u

abbrev pub record_of : Option User → Option String
record_of none = none
record_of (some u) = some u.opaque_record

abbrev pub id_of : Option User → Option String
id_of none = none
id_of (some u) = some u.id

module _ (x : Services) where
  -- POST /login/start, within the limit.
  unfoldable pub begin_login : Server → String → String → ℕ → Fresh → Server × Reply
  unfolding user_by_name insert_session
  begin_login s username ke1 now f =
      let u = active_user (user_by_name username s) in
      elim (x.login_start username (record_of u) ke1) [
        | none ↦ (s, refused 400 "nie udało się rozpocząć logowania")
        | some (response, state) ↦
            elim (insert_session
              (record {
                id = f.uuid;
                user_id = id_of u;
                expected = state;
                stage = awaiting_opaque;
                expires_at = now + login_session_ttl_ms;
              })
              s) [
                | none ↦ (s, refused 500 "Internal Server Error")
                | some t ↦ (t, challenged f.uuid response)
              ]
      ]

  unfoldable pub login_start : Server → String → String → ℕ → Fresh → Server × Reply
  unfolding within_rate_limit begin_login
  login_start s username ke1 now f =
      let limited = within_rate_limit s (append_text "login:" username) now in
      if limited.1
      then begin_login limited.0 username ke1 now f
      else (limited.0, refused 429 "zbyt wiele prób")

  -- What follows the check of the client's proof.
  unfoldable pub await_totp : Server → String → Option String → ℕ → Server × Reply
  unfolding insert_session
  await_totp s id none now = (s, refused 401 "nieprawidłowe dane logowania")
  await_totp s id (some user_id) now =
      elim (insert_session
        (record {
          id = id;
          user_id = some user_id;
          expected = "";
          stage = awaiting_totp;
          expires_at = now + login_session_ttl_ms;
        })
        s) [ none ↦ (s, refused 500 "Internal Server Error") | some t ↦ (t, totp_required id) ]

  -- POST /login/finish
  unfoldable pub login_finish : Server → String → String → String → ℕ → Server × Reply
  unfolding take_session drop_session await_totp
  login_finish s id username ke3 now =
      let t = drop_session id awaiting_opaque now s in
      elim (take_session id awaiting_opaque now s) [
        | none ↦ (t, refused 401 "sesja logowania jest nieważna")
        | some row ↦
            if x.login_finish row.expected username ke3
            then await_totp t id row.user_id now
            else (t, refused 401 "nieprawidłowe dane logowania")
      ]

  -- POST /login/totp once the code is known to be valid: its window may not be used twice.
  unfoldable pub accept_window :
      Server → String → User → ℤ → Option String → Bool → ℕ → Fresh → Server × Reply
  unfolding is_replay set_counter reset sign_in
  accept_window s id u k device in_body now f =
      if is_replay k u.last_counter
      then (s, refused 401 "kod został już użyty")
      else let t = set_counter u.id k s in
        sign_in x u.id device in_body now f
          (record t { buckets = reset t.buckets (append_text "totp:" id) })

  unfoldable pub check_code :
      Server → String → User → List ℕ → Option String → Bool → ℕ → Fresh → Server × Reply
  unfolding verify_code accept_window
  check_code s id u code device in_body now f = elim (x.decrypt u.totp_secret_enc) [
    | none ↦ (s, refused 500 "Internal Server Error")
    | some secret ↦ elim (verify_code x secret code now) [
      | none ↦ (s, refused 401 "nieprawidłowy kod")
      | some k ↦ accept_window s id u k device in_body now f
    ]
  ]

  abbrev pub owner : Option String → Server → Option User
  unfolding user_by_id
  owner none s = none
  owner (some id) s = user_by_id id s

  -- POST /login/totp, within the limit.
  unfoldable pub second_factor :
      Server → String → List ℕ → Option String → Bool → ℕ → Fresh → Server × Reply
  unfolding take_session drop_session owner check_code
  second_factor s id code device in_body now f =
      let t = drop_session id awaiting_totp now s in
      elim (take_session id awaiting_totp now s) [
        | none ↦ (t, refused 401 "sesja logowania jest nieważna")
        | some row ↦ elim (owner row.user_id t) [
          | none ↦ (t, refused 401 "nieprawidłowe dane logowania")
          | some u ↦ check_code t id u code device in_body now f
        ]
      ]

  unfoldable pub login_totp :
      Server → String → List ℕ → Option String → Bool → ℕ → Fresh → Server × Reply
  unfolding within_rate_limit second_factor
  login_totp s id code device in_body now f =
      let limited = within_rate_limit s (append_text "totp:" id) now in
      if limited.1
      then second_factor limited.0 id code device in_body now f
      else (limited.0, refused 429 "zbyt wiele prób")
