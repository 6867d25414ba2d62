-- ===== src/Server/TotpChange/Admission.antt =====
-- What lets a change of the one-time code start (server/src/auth.ts, /totp/change/start).
use mekamb_chat.Common.{
  ℕ, ◌≡◌, ◌⊎◌, refl, inl, inr, String, false, not, Option, none, some, List, [], ◌∷◌, find, filter,
  Bool-cases, Option-cases, arith,
}
use mekamb_chat.Common.Int.{ℤ}
use mekamb_chat.Server.Auth.State.{User, Services, Fresh, user_by_id, set_counter}
use mekamb_chat.Server.Auth.Login.{active_user}
use mekamb_chat.Server.Auth.Totp.{verify_code, is_replay}
use mekamb_chat.Server.Passkeys.{Passkey, Response, Verifier}
use mekamb_chat.Server.TotpChange.{
  Reauth, Change, Reply, started, is_reauth, own_key, issue_secret, use_window, by_old_code,
  touch_key, verify_key, spend_reauth, by_passkey, reauthenticate, change_start,
}

module _ (x : Services) (v : Verifier) where
  abbrev Starts : Change × Reply → Type 0
  Starts o = (secret uri : String) × (o.1 ≡ started secret uri)

  -- A code of the old authenticator, in a window not used before, which is used afterwards.
  pub record ByCode (u : User) (code : Option (List ℕ)) (now : ℕ) (s t : Change) : Type 0 where
    pub given : List ℕ
    pub code_lem : code ≡ some given
    pub secret : String
    pub decrypted : x.decrypt u.totp_secret_enc ≡ some secret
    pub window : ℤ
    pub valid : verify_code x secret given now ≡ some window
    pub unused : is_replay window u.last_counter ≡ false
    pub used : t.passkeys.server ≡ set_counter u.id window s.passkeys.server

  -- A passkey of the user, accepted for an open challenge that was given to the user and is spent.
  pub record ByKey (u : User) (response : Option Response) (now : ℕ) (s t : Change) : Type 0 where
    pub given : Response
    pub response_lem : response ≡ some given
    pub value : String
    pub answers : v.challenge_in given ≡ some value
    pub row : Reauth
    pub open_lem : find (is_reauth value u.id now) s.reauths ≡ some row
    pub key : Passkey
    pub owned : own_key given.id u.id s ≡ some key
    pub counter : ℕ
    pub accepted : v.authenticated given value key.public_key key.sign_count ≡ some counter
    pub spent : t.reauths ≡ filter (λ r. not (is_reauth value u.id now r)) s.reauths

  by_old_code_sound :
      (u : User) (c : List ℕ) (now : ℕ) (f : Fresh) (s : Change)
      → Starts (by_old_code x v u c now f s)
      → ByCode u (some c) now s (by_old_code x v u c now f s).0
  unfolding by_old_code use_window issue_secret
  by_old_code_sound u c now f s (a, b, h) = elim (Option-cases (x.decrypt u.totp_secret_enc)) [
    | inl e ↦ absurd (ground arith)
    | inr (secret, e) ↦ elim (Option-cases (verify_code x secret c now)) [
      | inl e' ↦ absurd (ground arith)
      | inr (k, e') ↦ elim (Bool-cases (is_replay k u.last_counter)) [
        | inl replay ↦ absurd (ground arith)
        | inr fresh ↦ record {
          given = c;
          code_lem = refl;
          secret = secret;
          decrypted = e;
          window = k;
          valid = e';
          unused = fresh;
          used = rw (e, e', fresh, by_old_code, use_window);
        }
      ]
    ]
  ]

  by_passkey_sound :
      (u : User) (response : Response) (now : ℕ) (f : Fresh) (s : Change)
      → Starts (by_passkey x v u response now f s)
      → ByKey u (some response) now s (by_passkey x v u response now f s).0
  unfolding by_passkey spend_reauth verify_key issue_secret touch_key
  by_passkey_sound u response now f s (a, b, h) = elim (Option-cases (v.challenge_in response)) [
    | inl e ↦ absurd (ground arith)
    | inr (value, e) ↦ elim (Option-cases (find (is_reauth value u.id now) s.reauths)) [
      | inl e' ↦ absurd (ground arith)
      | inr (row, e') ↦ elim (Option-cases (own_key response.id u.id s)) [
        | inl q ↦ absurd (ground arith)
        | inr (key, q) ↦
            elim (Option-cases (v.authenticated response value key.public_key key.sign_count)) [
              | inl q' ↦ absurd (ground arith)
              | inr (counter, q') ↦ record {
                given = response;
                response_lem = refl;
                value = value;
                answers = e;
                row = row;
                open_lem = e';
                key = key;
                owned = q;
                counter = counter;
                accepted = q';
                spent = rw (e, e', q, q', by_passkey, spend_reauth, verify_key);
              }
            ]
      ]
    ]
  ]

  reauthenticate_sound :
      (u : User) (code : Option (List ℕ)) (response : Option Response) (now : ℕ) (f : Fresh)
      (s : Change)
      → Starts (reauthenticate x v u code response now f s)
      → let t = (reauthenticate x v u code response now f s).0 in
        ByCode u code now s t ⊎ ByKey u response now s t
  unfolding reauthenticate
  reauthenticate_sound u (some (c ∷ cs)) response now f s h =
      inl (by_old_code_sound u (c ∷ cs) now f s h)
  reauthenticate_sound u (some []) (some r) now f s h = inr (by_passkey_sound u r now f s h)
  reauthenticate_sound u none (some r) now f s h = inr (by_passkey_sound u r now f s h)
  reauthenticate_sound u (some []) none now f s (a, b, h) = absurd (cc h)
  reauthenticate_sound u none none now f s (a, b, h) = absurd (cc h)

  -- A change of the one-time code starts only for an active user who reauthenticates: by a code of
  -- the old authenticator, valid in a window that was not used and is used then, or by a passkey of
  -- the same user that the library accepts for an open challenge of that user, which is spent.
  pub change_start_sound :
      (user : String) (code : Option (List ℕ)) (response : Option Response) (now : ℕ) (f : Fresh)
      (s : Change) (secret uri : String)
      → (change_start x v user code response now f s).1 ≡ started secret uri
      → let t = (change_start x v user code response now f s).0 in
        (u : User) × (active_user (user_by_id user s.passkeys.server) ≡ some u)
        × (ByCode u code now s t ⊎ ByKey u response now s t)
  unfolding change_start
  change_start_sound user code response now f s secret uri h =
      elim (Option-cases (active_user (user_by_id user s.passkeys.server))) [
        | inl e ↦ absurd (ground arith)
        | inr (u, e) ↦
            let opened : change_start x v user code response now f s
                ≡ reauthenticate x v u code response now f s =
              rw (e, change_start) in
            (
              u,
              e,
              rw opened
                  (reauthenticate_sound u code response now f s (secret, uri, rw (← opened) h)),
            )
      ]
