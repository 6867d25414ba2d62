-- ===== src/Server/Auth/TwoFactor.antt =====
-- The two factors of a login (server/src/auth.ts, `/login/finish` and `/login/totp`), over histories.
use mekamb_chat.Common.{
  ℕ, ◌≡◌, refl, sym, subst, String, append_text, Bool, true, false, not, ◌&&◌, ◌||◌, Option, none,
  some, Option-cases, Bool-cases, ◌⊎◌, inl, inr, List, [], ◌∷◌, ◌++◌, arith, ltb, if◌then◌else◌,
  text_eqb, text_eqb→eq, text_eqb_refl, ◌≢◌, ◌+◌, ◌≤◌, all, any, find, filter, all-filter,
}
use mekamb_chat.Common.Int.{ℤ}
use mekamb_chat.Server.Auth.State.{
  Server, Session, User, Services, Fresh, Reply, refused, signed_in, totp_required, awaiting_opaque,
  awaiting_totp, stage_eqb, is_open, take_session, drop_session, insert_session, within_rate_limit,
  sign_in, truthy, issue_refresh_token, set_counter, login_session_ttl_ms, user_by_id, user_by_name,
}
use mekamb_chat.Server.Auth.Totp.{verify_code, is_replay}
use mekamb_chat.Server.Auth.Register.{
  register_finish, insert_user, register_confirm, confirm_user, activate,
}
use mekamb_chat.Server.Auth.Login.{
  active_user, record_of, id_of, login_start, begin_login, await_totp, login_finish, accept_window,
  check_code, owner, second_factor, login_totp,
}
use mekamb_chat.Server.Auth.Lasting.{refresh, exchange, rotate, logout}
use mekamb_chat.Server.Auth.History.{
  Request, enrols, confirms, starts, finishes, submits, refreshes, leaves, Arrival, Entry, handle,
  serve, is_finish, is_totp_required, is_signed_in, finished,
}
use mekamb_chat.Server.Auth.TwoFactor.Waiting.{Proven, Proven-found}
use mekamb_chat.Server.Auth.TwoFactor.Kept.{serve_sessions}
mod Waiting
mod Sessions
mod Kept

module _ (x : Services) where
  second_factor_needs :
      (s : Server) (id : String) (code : List ℕ) (d : Option String) (b : Bool) (now : ℕ)
      (f : Fresh)
      → is_signed_in (second_factor x s id code d b now f).1 ≡ true
      → (row : Session) × (take_session id awaiting_totp now s ≡ some row)
  unfolding second_factor
  second_factor_needs s id code d b now f h =
      elim (Option-cases (take_session id awaiting_totp now s)) [
        | inl e ↦ absurd (cc)
        | inr (row, e) ↦ (row, e)
      ]

  login_totp_needs :
      (s : Server) (id : String) (code : List ℕ) (d : Option String) (b : Bool) (now : ℕ)
      (f : Fresh)
      → is_signed_in (login_totp x s id code d b now f).1 ≡ true
      → (row : Session) × (take_session id awaiting_totp now s ≡ some row)
  unfolding login_totp within_rate_limit take_session
  login_totp_needs s id code d b now f h =
      let limited = within_rate_limit s (append_text "totp:" id) now in
      elim (Bool-cases limited.1) [
        | inl e ↦ second_factor_needs limited.0 id code d b now f (rw e at h)
        | inr e ↦ absurd (cc (rw e at h))
      ]

  -- No token without both factors: if the service started with no login sessions, then whatever
  -- requests it has served, a code for a login is answered by a token only if a second round of
  -- that very login succeeded before.
  pub both_factors :
      (s : Server) (arrivals : List Arrival) (id : String) (code : List ℕ) (d : Option String)
      (b : Bool) (now : ℕ) (f : Fresh)
      → s.sessions ≡ []
      → is_signed_in (login_totp x (serve x s [] arrivals).0 id code d b now f).1 ≡ true
      → finished id (serve x s [] arrivals).1 ≡ true
  both_factors s arrivals id code d b now f empty h =
      let start : Proven [] s.sessions = record { proven = rw empty refl } in
      let kept = serve_sessions x s [] arrivals start in
      let (row, found) = login_totp_needs (serve x s [] arrivals).0 id code d b now f h in
      Proven-found (serve x s [] arrivals).1 id now (serve x s [] arrivals).0.sessions row
        kept.proven (unfold take_session in found)
