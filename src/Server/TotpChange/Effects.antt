-- ===== src/Server/TotpChange/Effects.antt =====
-- What a start of a change does to the secrets (server/src/auth.ts, /totp/change/start).
use mekamb_chat.Common.{
  ℕ, ◌≡◌, ◌⊎◌, refl, ap, inl, inr, String, Bool, true, false, not, Option, none, some, List, [],
  ◌∷◌, map, if◌then◌else◌, text_eqb, text_eqb→eq, text_discrete, find, filter, Bool-cases,
  Option-cases, arith,
}
use mekamb_chat.Common.Int.{ℤ}
use mekamb_chat.Common.Keyed.{set}
use mekamb_chat.Server.Auth.State.{User, Status, Server, Services, Fresh, set_counter}
use mekamb_chat.Server.Auth.Login.{active_user}
use mekamb_chat.Server.Auth.Totp.{verify_code, is_replay}
use mekamb_chat.Server.Passkeys.{Response, Verifier}
use mekamb_chat.Server.TotpChange.{
  Change, Reply, refused, options, started, confirmed, is_reauth, own_key, with_server,
  issue_secret, use_window, by_old_code, touch_key, verify_key, spend_reauth, by_passkey,
  reauthenticate,
}

-- The active secret, sealed, in the first row of the user.
abbrev pub secret_of : String → List User → Option String
secret_of id [] = none
secret_of id (u ∷ us) = if text_eqb u.id id then some u.totp_secret_enc else secret_of id us

abbrev pub secret_in : String → Change → Option String
secret_in id s = secret_of id s.passkeys.server.users

abbrev pub is_started : Reply → Bool
is_started (started secret uri) = true
is_started (refused code e) = false
is_started (options value) = false
is_started confirmed = false

module _ (x : Services) (v : Verifier) where
  -- What a start for the row `u` does: no active secret changes, and a secret waits for that user
  -- only if it is let through.
  pub record Effect (u : User) (s : Change) (o : Change × Reply) : Type 0 where
    pub secrets : (id : String) → secret_in id o.0 ≡ secret_in id s
    pub waiting :
        (o.0.pendings ≡ s.pendings)
        ⊎ ((is_started o.1 ≡ true)
            × (sealed : String) × (o.0.pendings ≡ set text_discrete u.id sealed s.pendings))

  refuses :
      (u : User) (s t : Change) (code : ℕ) (e : String)
      → t.passkeys.server ≡ s.passkeys.server
      → t.pendings ≡ s.pendings
      → Effect u s (t, refused code e)
  refuses u s t code e h k = record {
    secrets = λ id. ap (λ (z : Server). secret_of id z.users) h;
    waiting = inl k;
  }

  issues :
      (u : User) (s t : Change) (f : Fresh)
      → ((id : String) → secret_in id t ≡ secret_in id s)
      → t.pendings ≡ s.pendings
      → Effect u s (issue_secret x v u f t)
  unfolding issue_secret
  issues u s t f h k = record {
    secrets = h;
    waiting = inr (
      refl,
      x.encrypt f.iv f.totp_secret,
      ap (set text_discrete u.id (x.encrypt f.iv f.totp_secret)) k,
    );
  }

  secret_of-set_counter :
      (id a : String) (k : ℤ) (users : List User)
      → secret_of id
          (map (λ u. if text_eqb u.id a then record u { last_counter = some k } else u) users)
        ≡ secret_of id users
  secret_of-set_counter id a k [] = refl
  secret_of-set_counter id a k (u ∷ us) = elim (Bool-cases (text_eqb u.id a)) [
    | inl e ↦ rw (e, secret_of-set_counter id a k us)
    | inr e ↦ rw (e, secret_of-set_counter id a k us)
  ]

  use_window-Effect :
      (u : User) (k : ℤ) (f : Fresh) (s : Change) → Effect u s (use_window x v u k f s)
  unfolding use_window set_counter
  use_window-Effect u k f s = elim (Bool-cases (is_replay k u.last_counter)) [
    | inl e ↦ rw e (refuses u s s 401 "nieprawidłowy kod" refl refl)
    | inr e ↦ rw e (
        issues u s (with_server (set_counter u.id k s.passkeys.server) s) f
          (λ id. secret_of-set_counter id u.id k s.passkeys.server.users) refl)
  ]

  by_old_code-Effect :
      (u : User) (code : List ℕ) (now : ℕ) (f : Fresh) (s : Change)
      → Effect u s (by_old_code x v u code now f s)
  unfolding by_old_code
  by_old_code-Effect u code now f s = elim (Option-cases (x.decrypt u.totp_secret_enc)) [
    | inl e ↦ rw (e, by_old_code) (refuses u s s 500 "Internal Server Error" refl refl)
    | inr (secret, e) ↦ elim (Option-cases (verify_code x secret code now)) [
      | inl e' ↦ rw (e, e', by_old_code) (refuses u s s 401 "nieprawidłowy kod" refl refl)
      | inr (k, e') ↦ rw (e, e', by_old_code) (use_window-Effect u k f s)
    ]
  ]

  verify_key-Effect :
      (u : User) (value : String) (response : Response) (now : ℕ) (f : Fresh) (s t : Change)
      → t.passkeys.server ≡ s.passkeys.server
      → t.pendings ≡ s.pendings
      → Effect u s (verify_key x v u value response now f t)
  unfolding verify_key touch_key
  verify_key-Effect u value response now f s t h k =
      elim (Option-cases (own_key response.id u.id t)) [
        | inl e ↦ rw (e, verify_key) (refuses u s t 401 "nieznany passkey" h k)
        | inr (key, e) ↦
            elim (Option-cases (v.authenticated response value key.public_key key.sign_count)) [
              | inl e' ↦
                  rw (e, e', verify_key) (refuses u s t 401 "weryfikacja nie powiodła się" h k)
              | inr (counter, e') ↦
                  rw (e, e', verify_key)
                    (issues u s (touch_key x v response.id counter now t) f
                      (λ id. ap (λ (z : Server). secret_of id z.users) h) k)
            ]
      ]

  by_passkey-Effect :
      (u : User) (response : Response) (now : ℕ) (f : Fresh) (s : Change)
      → Effect u s (by_passkey x v u response now f s)
  unfolding by_passkey spend_reauth
  by_passkey-Effect u response now f s = elim (Option-cases (v.challenge_in response)) [
    | inl e ↦ rw (e, by_passkey) (refuses u s s 400 "nieprawidłowa odpowiedź" refl refl)
    | inr (value, e) ↦
        let t : Change = record s {
          reauths = filter (λ r. not (is_reauth value u.id now r)) s.reauths;
        } in
        elim (Option-cases (find (is_reauth value u.id now) s.reauths)) [
          | inl e' ↦
              rw (e, e', by_passkey, spend_reauth)
                (refuses u s t 401 "sesja potwierdzenia jest nieważna" refl refl)
          | inr (row, e') ↦
              rw (e, e', by_passkey, spend_reauth)
                (verify_key-Effect u value response now f s t refl refl)
        ]
  ]

  pub reauthenticate-Effect :
      (u : User) (code : Option (List ℕ)) (response : Option Response) (now : ℕ) (f : Fresh)
      (s : Change)
      → Effect u s (reauthenticate x v u code response now f s)
  unfolding reauthenticate
  reauthenticate-Effect u (some (c ∷ cs)) response now f s = by_old_code-Effect u (c ∷ cs) now f s
  reauthenticate-Effect u (some []) (some response) now f s = by_passkey-Effect u response now f s
  reauthenticate-Effect u none (some response) now f s = by_passkey-Effect u response now f s
  reauthenticate-Effect u (some []) none now f s = refuses u s s 400 _ refl refl
  reauthenticate-Effect u none none now f s = refuses u s s 400 _ refl refl

  pub find_id :
      (id : String) (users : List User) (u : User)
      → find (λ w. text_eqb w.id id) users ≡ some u
      → u.id ≡ id
  find_id id [] u h = absurd (cc h)
  find_id id (w ∷ ws) u h = elim (Bool-cases (text_eqb w.id id)) [
    | inl e ↦ let same : w ≡ u = ground arith in rw (← same) (text_eqb→eq w.id id e)
    | inr e ↦ find_id id ws u (ground arith)
  ]

  pub only_active_same : (o : Option User) (u : User) → active_user o ≡ some u → o ≡ some u
  only_active_same none u h = absurd (cc h)
  only_active_same (some w) u h = by_status w.status refl
    where
      by_status : (t : Status) → w.status ≡ t → some w ≡ some u
      by_status Status.pending e = absurd (ground arith)
      by_status Status.active e = ground arith
