-- ===== src/Server/Auth/CodeWindow.antt =====
-- The third round of a login and the windows of codes (server/src/auth.ts, `/login/totp`;
-- server/src/totp.ts).
use mekamb_chat.Common.{
  ℕ, ◌≡◌, refl, sym, subst, String, append_text, Bool, true, false, Option, none, some,
  Option-cases, Bool-cases, inl, inr, List, [], ◌∷◌, map, arith, if◌then◌else◌, text_eqb,
  text_eqb→eq, find,
}
use mekamb_chat.Common.Int.{ℤ}
use mekamb_chat.Server.Auth.State.{
  Server, Session, User, Services, Fresh, awaiting_totp, take_session, drop_session,
  within_rate_limit, sign_in, user_by_id,
}
use mekamb_chat.Server.Auth.Totp.{verify_code, is_replay}
use mekamb_chat.Server.Auth.Login.{accept_window, check_code, owner, second_factor, login_totp}
use mekamb_chat.Server.Auth.History.{is_signed_in}

abbrev pub with_window : ℤ → User → User
with_window k u = record u { last_counter = some k }

find_set :
    (id : String) (k : ℤ) (us : List User) (u : User)
    → find (λ v. text_eqb v.id id) us ≡ some u
    → find (λ v. text_eqb v.id id) (map (λ v. if text_eqb v.id id then with_window k v else v) us)
      ≡ some (with_window k u)
find_set id k [] u h = cc
find_set id k (v ∷ us) u h = elim (Bool-cases (text_eqb v.id id)) [
  | inl e ↦
      let same : v ≡ u = cc (rw e at h) in
      rw (e, e) (subst (λ w. some (with_window k v) ≡ some (with_window k w)) same refl)
  | inr e ↦ rw (e, e) (find_set id k us u (rw e at h))
]

find_user_id :
    (id : String) (us : List User) (u : User) → find (λ v. text_eqb v.id id) us ≡ some u → u.id ≡ id
find_user_id id [] u h = cc
find_user_id id (v ∷ us) u h = elim (Bool-cases (text_eqb v.id id)) [
  | inl e ↦ let same : v ≡ u = cc (rw e at h) in subst (λ w. w.id ≡ id) same (text_eqb→eq v.id id e)
  | inr e ↦ find_user_id id us u (rw e at h)
]

module _ (x : Services) where
  sign_in_users :
      (u : String) (d : Option String) (b : Bool) (now : ℕ) (f : Fresh) (s : Server)
      → (sign_in x u d b now f s).0.users ≡ s.users
  unfolding sign_in
  sign_in_users u d b now f s = ground arith

  -- A code that passes: its window, later than any that the user had used, is the user's last after.
  pub record Passed (after : Server) (u : User) (code : List ℕ) (now : ℕ) : Type 0 where
    pub secret : String
    pub window : ℤ
    pub decrypted : x.decrypt u.totp_secret_enc ≡ some secret
    pub valid : verify_code x secret code now ≡ some window
    pub unused : is_replay window u.last_counter ≡ false
    pub recorded : user_by_id u.id after ≡ some (with_window window u)

  accept_window_users :
      (s : Server) (id : String) (u : User) (k : ℤ) (d : Option String) (b : Bool) (now : ℕ)
      (f : Fresh)
      → is_replay k u.last_counter ≡ false
      → user_by_id u.id s ≡ some u
      → user_by_id u.id (accept_window x s id u k d b now f).0 ≡ some (with_window k u)
  unfolding accept_window user_by_id
  accept_window_users s id u k d b now f fresh found =
      rw (fresh, accept_window)
        (rw (sign_in_users u.id d b now f _) (find_set u.id k s.users u found))

  check_code-Passed :
      (s : Server) (id : String) (u : User) (code : List ℕ) (d : Option String) (b : Bool) (now : ℕ)
      (f : Fresh)
      → user_by_id u.id s ≡ some u
      → is_signed_in (check_code x s id u code d b now f).1 ≡ true
      → Passed (check_code x s id u code d b now f).0 u code now
  unfolding check_code
  check_code-Passed s id u code d b now f found h =
      elim (Option-cases (x.decrypt u.totp_secret_enc)) [
        | inl e ↦ absurd (cc (rw (e, check_code) at h))
        | inr (secret, e) ↦ elim (Option-cases (verify_code x secret code now)) [
          | inl v ↦ absurd (cc (rw (check_code, e, v) at h))
          | inr (k, v) ↦ elim (Bool-cases (is_replay k u.last_counter)) [
            | inl used ↦ absurd (cc (rw (check_code, e, v, accept_window, used) at h))
            | inr fresh ↦ record {
              secret = secret;
              window = k;
              decrypted = e;
              valid = v;
              unused = fresh;
              recorded = rw (check_code, e, v) (accept_window_users s id u k d b now f fresh found);
            }
          ]
        ]
      ]

  owner_found :
      (id : Option String) (s : Server) (u : User)
      → owner x id s ≡ some u
      → (id ≡ some u.id) × (user_by_id u.id s ≡ some u)
  unfolding user_by_id
  owner_found none s u h = cc
  owner_found (some id) s u h =
      let same : u.id ≡ id = find_user_id id s.users u h in
      (
        subst (λ i. some i ≡ some u.id) same refl,
        subst (λ i. find (λ v. text_eqb v.id i) s.users ≡ some u) (sym same) h,
      )

  second_factor-Passed :
      (s : Server) (id : String) (code : List ℕ) (d : Option String) (b : Bool) (now : ℕ)
      (f : Fresh)
      → is_signed_in (second_factor x s id code d b now f).1 ≡ true
      → (row : Session) × (u : User) × (take_session id awaiting_totp now s ≡ some row)
        × (row.user_id ≡ some u.id)
        × (user_by_id u.id s ≡ some u)
        × Passed (second_factor x s id code d b now f).0 u code now
  unfolding second_factor
  second_factor-Passed s id code d b now f h =
      let t = drop_session id awaiting_totp now s in
      elim (Option-cases (take_session id awaiting_totp now s)) [
        | inl e ↦ absurd (cc (rw (e, second_factor) at h))
        | inr (row, e) ↦ elim (Option-cases (owner x row.user_id t)) [
          | inl o ↦ absurd (cc (rw (second_factor, e, o) at h))
          | inr (u, o) ↦
              let (whose, found) = owner_found row.user_id t u o in
              (
                row,
                u,
                e,
                whose,
                (unfold drop_session in found),
                rw (second_factor, e, o)
                    (check_code-Passed t id u code d b now f found (rw (second_factor, e, o) at h)),
              )
        ]
      ]

  -- A code is answered by a token only if an open session of the login waits for it, whose user is
  -- there; the user's secret decrypts, the code is valid for it now in a window later than the last
  -- that the user had used, and that window is the user's last one afterwards.
  pub login_totp_sound :
      (s : Server) (id : String) (code : List ℕ) (d : Option String) (b : Bool) (now : ℕ)
      (f : Fresh)
      → is_signed_in (login_totp x s id code d b now f).1 ≡ true
      → (row : Session) × (u : User) × (take_session id awaiting_totp now s ≡ some row)
        × (row.user_id ≡ some u.id)
        × (user_by_id u.id s ≡ some u)
        × Passed (login_totp x s id code d b now f).0 u code now
  unfolding login_totp within_rate_limit take_session user_by_id
  login_totp_sound s id code d b now f h =
      let limited = within_rate_limit s (append_text "totp:" id) now in
      elim (Bool-cases limited.1) [
        | inl e ↦ rw (e, login_totp) (second_factor-Passed limited.0 id code d b now f (rw e at h))
        | inr e ↦ absurd (cc (rw e at h))
      ]
