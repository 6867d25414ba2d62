-- ===== src/Server/Auth/TwoFactor/Kept.antt =====
-- The waiting sessions after each route of server/src/auth.ts.
use mekamb_chat.Common.{
  ℕ, refl, sym, subst, String, append_text, Bool, Option, none, some, Option-cases, Bool-cases, inl,
  inr, List, [], ◌∷◌, arith, text_eqb, ◌+◌, any,
}
use mekamb_chat.Server.Auth.State.{
  Server, Session, Services, Fresh, awaiting_opaque, awaiting_totp, take_session, drop_session,
  within_rate_limit, login_session_ttl_ms, user_by_name,
}
use mekamb_chat.Server.Auth.Login.{
  active_user, record_of, id_of, login_start, begin_login, await_totp, login_finish, login_totp,
}
use mekamb_chat.Server.Auth.History.{
  Request, enrols, confirms, starts, finishes, submits, refreshes, leaves, Arrival, Entry, handle,
  serve,
}
use mekamb_chat.Server.Auth.TwoFactor.Waiting.{Proven, Proven-log, Proven-filter, Proven-append}
use mekamb_chat.Server.Auth.TwoFactor.Sessions.{
  register_finish_sessions, register_confirm_sessions, refresh_sessions, logout_sessions,
  second_factor_sessions,
}

module _ (x : Services) where
  pub login_totp_sessions :
      (log : List Entry) (s : Server) (id : String) (code : List ℕ) (d : Option String) (b : Bool)
      (now : ℕ) (f : Fresh)
      → Proven log s.sessions
      → Proven log (login_totp x s id code d b now f).0.sessions
  unfolding login_totp within_rate_limit
  login_totp_sessions log s id code d b now f h =
      elim (Bool-cases (within_rate_limit s (append_text "totp:" id) now).1) [
        | inl e ↦
            rw
              (
                e,
                second_factor_sessions x (within_rate_limit s (append_text "totp:" id) now).0 id
                    code d b now f,
              )
              (Proven-filter log _ s.sessions h)
        | inr e ↦ rw e h
      ]

  pub begin_login_sessions :
      (log : List Entry) (s : Server) (name ke1 : String) (now : ℕ) (f : Fresh)
      → Proven log s.sessions
      → Proven log (begin_login x s name ke1 now f).0.sessions
  unfolding begin_login
  begin_login_sessions log s name ke1 now f h =
      let u = active_user (user_by_name name s) in
      elim (Option-cases (x.login_start name (record_of u) ke1)) [
        | inl e ↦ rw (e, begin_login) h
        | inr (p, e) ↦
            let y : Session = record {
              id = f.uuid;
              user_id = id_of u;
              expected = p.1;
              stage = awaiting_opaque;
              expires_at = now + login_session_ttl_ms;
            } in
            rw (e, begin_login)
              (elim (Bool-cases (any (λ z. text_eqb z.id f.uuid) s.sessions)) [
                | inl there ↦ rw there h
                | inr new ↦ rw new (Proven-append log s.sessions y h refl)
              ])
      ]

  pub login_start_sessions :
      (log : List Entry) (s : Server) (name ke1 : String) (now : ℕ) (f : Fresh)
      → Proven log s.sessions
      → Proven log (login_start x s name ke1 now f).0.sessions
  unfolding login_start within_rate_limit
  login_start_sessions log s name ke1 now f h =
      elim (Bool-cases (within_rate_limit s (append_text "login:" name) now).1) [
        | inl e ↦ rw e (
            begin_login_sessions log (within_rate_limit s (append_text "login:" name) now).0 name
              ke1 now f h)
        | inr e ↦ rw e h
      ]

  pub await_totp_sessions :
      (log : List Entry) (s : Server) (id name ke3 : String) (owner : Option String) (now : ℕ)
      → Proven log s.sessions
      → let r = await_totp x s id owner now in
        Proven (record { request = finishes id name ke3; reply = r.1 } ∷ log) r.0.sessions
  unfolding await_totp
  await_totp_sessions log s id name ke3 none now h = Proven-log _ log s.sessions h
  await_totp_sessions log s id name ke3 (some u) now h =
      elim (Bool-cases (any (λ z. text_eqb z.id id) s.sessions)) [
        | inl there ↦ rw (there, await_totp) (Proven-log _ log s.sessions h)
        | inr new ↦
            rw (new, await_totp)
              (Proven-append _ s.sessions
                (record {
                  id = id;
                  user_id = some u;
                  expected = "";
                  stage = awaiting_totp;
                  expires_at = now + login_session_ttl_ms;
                })
                (Proven-log _ log s.sessions h) (ground arith))
      ]

  pub login_finish_sessions :
      (log : List Entry) (s : Server) (id name ke3 : String) (now : ℕ)
      → Proven log s.sessions
      → let r = login_finish x s id name ke3 now in
        Proven (record { request = finishes id name ke3; reply = r.1 } ∷ log) r.0.sessions
  unfolding login_finish
  login_finish_sessions log s id name ke3 now h =
      let kept : Proven log (drop_session id awaiting_opaque now s).sessions =
        Proven-filter log _ s.sessions h in
      let t = drop_session id awaiting_opaque now s in
      elim (Option-cases (take_session id awaiting_opaque now s)) [
        | inl e ↦ rw (e, login_finish) (Proven-log _ log t.sessions kept)
        | inr (row, e) ↦
            rw (e, login_finish)
              (elim (Bool-cases (x.login_finish row.expected name ke3)) [
                | inl ok ↦ rw ok (await_totp_sessions log t id name ke3 row.user_id now kept)
                | inr bad ↦ rw bad (Proven-log _ log t.sessions kept)
              ])
      ]

  pub handle_sessions :
      (log : List Entry) (s : Server) (q : Request) (now : ℕ) (f : Fresh)
      → Proven log s.sessions
      → let r = handle x s q now f in
        Proven (record { request = q; reply = r.1 } ∷ log) r.0.sessions
  unfolding handle
  handle_sessions log s (enrols name upload) now f h =
      Proven-log _ log _ (subst (Proven log) (sym (register_finish_sessions x s name upload f)) h)
  handle_sessions log s (confirms name code d b) now f h =
      Proven-log _ log _
        (subst (Proven log) (sym (register_confirm_sessions x s name code d b now f)) h)
  handle_sessions log s (starts name ke1) now f h =
      Proven-log _ log _ (login_start_sessions log s name ke1 now f h)
  handle_sessions log s (finishes id name ke3) now f h =
      login_finish_sessions log s id name ke3 now h
  handle_sessions log s (submits id code d b) now f h =
      Proven-log _ log _ (login_totp_sessions log s id code d b now f h)
  handle_sessions log s (refreshes cookie d token b) now f h =
      Proven-log _ log _ (subst (Proven log) (sym (refresh_sessions x s cookie d token b now f)) h)
  handle_sessions log s (leaves cookie d token) now f h =
      Proven-log _ log _ (subst (Proven log) (sym (logout_sessions x s cookie d token)) h)

  pub serve_sessions :
      (s : Server) (log : List Entry) (arrivals : List Arrival)
      → Proven log s.sessions
      → let r = serve x s log arrivals in Proven r.1 r.0.sessions
  unfolding serve
  serve_sessions s log [] h = h
  serve_sessions s log (a ∷ rest) h =
      serve_sessions (handle x s a.request a.now a.fresh).0 _ rest
        (handle_sessions log s a.request a.now a.fresh h)
