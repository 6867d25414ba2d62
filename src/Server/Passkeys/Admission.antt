-- ===== src/Server/Passkeys/Admission.antt =====
-- Logins by a passkey (server/src/webauthn.ts): what a successful one went through.
use mekamb_chat.Common.{
  ℕ, ◌≡◌, refl, subst, String, append_text, Bool, true, some, text_eqb, find, Bool-cases,
  Option-cases, inl, inr,
}
use mekamb_chat.Server.Auth.State.{Services, Fresh, User, within_rate_limit, user_by_id}
use mekamb_chat.Server.Passkeys.{
  Challenge, Passkey, Passkeys, Response, Verifier, is_login, key_by_id, check_key, spend_challenge,
  login_verify,
}
use mekamb_chat.Server.Passkeys.SingleUse.{is_replied}

-- What a login by a passkey went through.
pub record Admitted (v : Verifier) (r : Response) (now : ℕ) (s : Passkeys) : Type 0 where
  pub value : String
  pub row : Challenge
  pub key : Passkey
  pub owner : User
  pub counter : ℕ
  pub answers : v.challenge_in r ≡ some value
  pub was_open : find (is_login value now) s.challenges ≡ some row
  pub has_key : key_by_id r.id s ≡ some key
  pub owned : find (λ u. text_eqb u.id key.user_id) s.server.users ≡ some owner
  pub verified : v.authenticated r value key.public_key key.sign_count ≡ some counter

module _ (x : Services) (v : Verifier) (r : Response) (device : String) (in_body : Bool) (now : ℕ)
    (f : Fresh) where
  check_key_admits :
      (value : String) (row : Challenge) (s t : Passkeys)
      → v.challenge_in r ≡ some value
      → find (is_login value now) s.challenges ≡ some row
      → t.keys ≡ s.keys
      → t.server.users ≡ s.server.users
      → is_replied (check_key x v value r device in_body now f t).1 ≡ true
      → Admitted v r now s
  unfolding check_key user_by_id
  check_key_admits value row s t e open_row keys users h = elim (Option-cases (key_by_id r.id t)) [
    | inl e1 ↦ absurd (cc (rw (is_replied, check_key, e1) at h))
    | inr (k, e1) ↦ elim (Option-cases (user_by_id k.user_id t.server)) [
      | inl e2 ↦ absurd (cc (rw (is_replied, check_key, e1, e2) at h))
      | inr (u, e2) ↦ elim (Option-cases (v.authenticated r value k.public_key k.sign_count)) [
        | inl e3 ↦ absurd (cc (rw (is_replied, check_key, e1, e2, e3) at h))
        | inr (n, e3) ↦ record {
          value = value;
          row = row;
          key = k;
          owner = u;
          counter = n;
          answers = e;
          was_open = open_row;
          has_key = subst (λ l. find (λ o. text_eqb o.id r.id) l ≡ some k) keys e1;
          owned = subst (λ l. find (λ o. text_eqb o.id k.user_id) l ≡ some u) users e2;
          verified = e3;
        }
      ]
    ]
  ]

-- A login by a passkey succeeds only when the response answers a login challenge that is open, names
-- a registered key whose owner has an account, and the library accepts it for that challenge, with
-- the public key and the counter of that key.
pub login_verify_sound :
    (x : Services) (v : Verifier) (address : String) (r : Response) (device : String)
    (in_body : Bool) (now : ℕ) (f : Fresh) (s : Passkeys)
    → is_replied (login_verify x v address r device in_body now f s).1 ≡ true
    → Admitted v r now s
unfolding login_verify spend_challenge within_rate_limit
login_verify_sound x v address r device in_body now f s h =
    elim (Bool-cases (within_rate_limit s.server (append_text "webauthn-login:" address) now).1) [
      | inr e ↦ absurd (cc (rw (is_replied, login_verify, e) at h))
      | inl e ↦ elim (Bool-cases (text_eqb device "")) [
        | inl e2 ↦ absurd (cc (rw (is_replied, login_verify, e, e2) at h))
        | inr e2 ↦ elim (Option-cases (v.challenge_in r)) [
          | inl e3 ↦ absurd (cc (rw (is_replied, login_verify, e, e2, e3) at h))
          | inr (value, e3) ↦ elim (Option-cases (find (is_login value now) s.challenges)) [
            | inl e4 ↦
                absurd (cc (rw (is_replied, login_verify, e, e2, e3, spend_challenge, e4) at h))
            | inr (row, e4) ↦
                check_key_admits x v r device in_body now f value row s _ e3 e4 refl refl
                  (rw (login_verify, e, e2, e3, spend_challenge, e4) at h)
          ]
        ]
      ]
    ]
