-- ===== src/Server/Auth/TwoFactor/Sessions.antt =====
-- What the routes of server/src/auth.ts leave of the table of login sessions.
use mekamb_chat.Common.{
  ℕ, ◌≡◌, refl, String, Bool, not, Option, Option-cases, inl, inr, List, arith, filter,
}
use mekamb_chat.Common.Int.{ℤ}
use mekamb_chat.Server.Auth.State.{
  Server, User, Services, Fresh, awaiting_totp, is_open, sign_in, user_by_name,
}
use mekamb_chat.Server.Auth.Register.{register_finish, register_confirm, confirm_user}
use mekamb_chat.Server.Auth.Login.{accept_window, check_code, second_factor}
use mekamb_chat.Server.Auth.Lasting.{refresh, exchange, logout}

module _ (x : Services) where
  -- The sessions that the routes other than the two rounds leave.
  pub sign_in_sessions :
      (u : String) (d : Option String) (b : Bool) (now : ℕ) (f : Fresh) (s : Server)
      → (sign_in x u d b now f s).0.sessions ≡ s.sessions
  unfolding sign_in
  sign_in_sessions u d b now f s = ground arith

  pub register_finish_sessions :
      (s : Server) (name upload : String) (f : Fresh)
      → (register_finish x s name upload f).0.sessions ≡ s.sessions
  unfolding register_finish
  register_finish_sessions s name upload f = ground arith

  pub confirm_user_sessions :
      (s : Server) (u : User) (code : List ℕ) (d : Option String) (b : Bool) (now : ℕ) (f : Fresh)
      → (confirm_user x s u u.status code d b now f).0.sessions ≡ s.sessions
  unfolding confirm_user
  confirm_user_sessions s u code d b now f = ground arith

  pub register_confirm_sessions :
      (s : Server) (name : String) (code : List ℕ) (d : Option String) (b : Bool) (now : ℕ)
      (f : Fresh)
      → (register_confirm x s name code d b now f).0.sessions ≡ s.sessions
  unfolding register_confirm
  register_confirm_sessions s name code d b now f = elim (Option-cases (user_by_name name s)) [
    | inl e ↦ rw (e, register_confirm) refl
    | inr (u, e) ↦ rw (e, register_confirm) (confirm_user_sessions s u code d b now f)
  ]

  pub refresh_sessions :
      (s : Server) (cookie device token : Option String) (b : Bool) (now : ℕ) (f : Fresh)
      → (refresh x s cookie device token b now f).0.sessions ≡ s.sessions
  unfolding refresh exchange
  refresh_sessions s cookie device token b now f = ground arith

  pub logout_sessions :
      (s : Server) (cookie device token : Option String)
      → (logout x s cookie device token).0.sessions ≡ s.sessions
  unfolding logout
  logout_sessions s cookie device token = ground arith

  pub accept_window_sessions :
      (s : Server) (id : String) (u : User) (k : ℤ) (d : Option String) (b : Bool) (now : ℕ)
      (f : Fresh)
      → (accept_window x s id u k d b now f).0.sessions ≡ s.sessions
  unfolding accept_window
  accept_window_sessions s id u k d b now f = ground arith

  pub check_code_sessions :
      (s : Server) (id : String) (u : User) (code : List ℕ) (d : Option String) (b : Bool) (now : ℕ)
      (f : Fresh)
      → (check_code x s id u code d b now f).0.sessions ≡ s.sessions
  unfolding check_code
  check_code_sessions s id u code d b now f = ground arith

  pub second_factor_sessions :
      (s : Server) (id : String) (code : List ℕ) (d : Option String) (b : Bool) (now : ℕ)
      (f : Fresh)
      → (second_factor x s id code d b now f).0.sessions
        ≡ filter (λ y. not (is_open id awaiting_totp now y)) s.sessions
  unfolding second_factor
  second_factor_sessions s id code d b now f = ground arith
