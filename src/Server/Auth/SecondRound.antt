-- ===== src/Server/Auth/SecondRound.antt =====
-- The second round of a login (server/src/auth.ts, `/login/finish`).
use mekamb_chat.Common.{
  ℕ, ◌≡◌, refl, String, Bool, true, false, not, Option, none, some, Option-cases, Bool-cases, inl,
  inr, List, [], ◌∷◌, ◌++◌, arith, text_eqb, ◌≢◌, ◌≤◌, any, find, filter,
}
use mekamb_chat.Server.Auth.State.{
  Server, Session, Services, refused, awaiting_opaque, is_open, take_session, drop_session,
}
use mekamb_chat.Server.Auth.Login.{await_totp, login_finish}
use mekamb_chat.Server.Auth.History.{is_totp_required}

closed_later :
    (id : String) (now later : ℕ) (ys : List Session)
    → now ≤ later
    → find
        (is_open id awaiting_opaque later)
        (filter (λ y. not (is_open id awaiting_opaque now y)) ys)
      ≡ none
closed_later id now later [] h = refl
closed_later id now later (y ∷ ys) h = ground (arith, closed_later id now later ys h)

find-append_none :
    (p : Session → Bool) (ys : List Session) (y : Session)
    → find p ys ≡ none
    → p y ≡ false
    → find p (ys ++ y ∷ []) ≡ none
find-append_none p [] y h k = ground arith
find-append_none p (z ∷ ys) y h k = ground (arith, find-append_none p ys y)

module _ (x : Services) where
  await_totp_known :
      (s : Server) (id : String) (owner : Option String) (now : ℕ)
      → is_totp_required (await_totp x s id owner now).1 ≡ true
      → owner ≢ none
  unfolding await_totp
  await_totp_known s id none now h = cc
  await_totp_known s id (some u) now h = λ e. cc

  -- A second round succeeds only on the proof of the password: some open session of that login had
  -- an expected state that the client's answer fits, and it was started for a known user.
  pub login_finish_sound :
      (s : Server) (id name ke3 : String) (now : ℕ)
      → is_totp_required (login_finish x s id name ke3 now).1 ≡ true
      → (row : Session) × (take_session id awaiting_opaque now s ≡ some row)
        × (x.login_finish row.expected name ke3 ≡ true)
        × (row.user_id ≢ none)
  unfolding login_finish
  login_finish_sound s id name ke3 now h =
      elim (Option-cases (take_session id awaiting_opaque now s)) [
        | inl e ↦ absurd (cc)
        | inr (row, e) ↦ elim (Bool-cases (x.login_finish row.expected name ke3)) [
          | inl ok ↦ (
            row,
            e,
            ok,
            await_totp_known (drop_session id awaiting_opaque now s) id row.user_id now
                (rw (login_finish, e, ok) at h),
          )
          | inr bad ↦ absurd (cc)
        ]
      ]

  await_totp_closed :
      (s : Server) (id : String) (owner : Option String) (now later : ℕ)
      → find (is_open id awaiting_opaque later) s.sessions ≡ none
      → find (is_open id awaiting_opaque later) (await_totp x s id owner now).0.sessions ≡ none
  unfolding await_totp
  await_totp_closed s id none now later h = h
  await_totp_closed s id (some u) now later h =
      elim (Bool-cases (any (λ z. text_eqb z.id id) s.sessions)) [
        | inl there ↦ rw (there, await_totp) h
        | inr new ↦
            rw (new, await_totp)
              (find-append_none (is_open id awaiting_opaque later) s.sessions _ h (ground arith))
      ]

  login_finish_closed :
      (s : Server) (id name ke3 : String) (now later : ℕ)
      → now ≤ later
      → find (is_open id awaiting_opaque later) (login_finish x s id name ke3 now).0.sessions ≡ none
  unfolding login_finish
  login_finish_closed s id name ke3 now later h =
      let t = drop_session id awaiting_opaque now s in
      let closed = closed_later id now later s.sessions h in
      elim (Option-cases (take_session id awaiting_opaque now s)) [
        | inl e ↦ rw (e, login_finish) closed
        | inr (row, e) ↦
            rw (e, login_finish)
              (elim (Bool-cases (x.login_finish row.expected name ke3)) [
                | inl ok ↦ rw ok (await_totp_closed t id row.user_id now later closed)
                | inr bad ↦ rw bad closed
              ])
      ]

  -- A first-round session serves one attempt: after any second round of a login, right or wrong, the
  -- next one for it, at the same time or later, is refused as having no session.
  pub login_finish_once :
      (s : Server) (id name ke3 name' ke3' : String) (now later : ℕ)
      → now ≤ later
      → (login_finish x (login_finish x s id name ke3 now).0 id name' ke3' later).1
        ≡ refused 401 "sesja logowania jest nieważna"
  login_finish_once s id name ke3 name' ke3' now later h =
      unfold login_finish take_session in
      rw (login_finish_closed s id name ke3 now later h, login_finish)
