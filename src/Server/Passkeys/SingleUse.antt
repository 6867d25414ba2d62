-- ===== src/Server/Passkeys/SingleUse.antt =====
-- Challenges of passkeys (server/src/webauthn.ts) over histories of requests.
use mekamb_chat.Common.{
  ℕ, ◌≤◌, ◌≡◌, ◌≢◌, refl, sym, subst, arith, String, append_text, Bool, true, false, not, ◌&&◌,
  Option, none, some, List, [], ◌∷◌, ◌++◌, text_eqb, find, filter, any, any-append, any-filter, All,
  Bool-cases, Option-cases, inl, inr,
}
use mekamb_chat.Server.Auth.State.{Services, Fresh, within_rate_limit, user_by_id}
use mekamb_chat.Server.Passkeys.{
  Challenge, Passkey, Passkeys, Response, Verifier, Answer, failed, options, registered_key,
  replied, is_login, is_own_registration, key_by_id, register_options, insert_key, register_verify,
  login_options, accept_key, check_key, spend_challenge, login_verify,
}

-- No login challenge with a value is open from a time on.
unfoldable pub Spent : String → ℕ → List Challenge → Type 0
Spent value now l = any (is_login value now) l ≡ false

Spent_mono :
    (value : String) (now later : ℕ) (l : List Challenge)
    → now ≤ later
    → Spent value now l
    → Spent value later l
unfolding Spent
Spent_mono value now later [] le h = refl
Spent_mono value now later (c ∷ l) le h = ground (arith, Spent_mono value now later l le)

filter-Spent_rest :
    (value : String) (now : ℕ) (l : List Challenge)
    → Spent value now (filter (λ c. not (is_login value now c)) l)
unfolding Spent
filter-Spent_rest value now [] = refl
filter-Spent_rest value now (c ∷ l) = ground (arith, filter-Spent_rest value now l)

filter-Spent :
    (value : String) (now : ℕ) (p : Challenge → Bool) (l : List Challenge)
    → Spent value now l
    → Spent value now (filter p l)
unfolding Spent
filter-Spent value now p l h = any-filter (is_login value now) p l h

nothing_found :
    (value : String) (now : ℕ) (l : List Challenge)
    → Spent value now l
    → find (is_login value now) l ≡ none
unfolding Spent
nothing_found value now [] h = refl
nothing_found value now (c ∷ l) h = ground (arith, nothing_found value now l)

abbrev pub is_replied : Answer → Bool
is_replied (replied r u n) = true
is_replied (failed n t) = false
is_replied (options t) = false
is_replied registered_key = false

module _ (x : Services) (v : Verifier) where
  challenges-check_key :
      (value : String) (r : Response) (device : String) (in_body : Bool) (now : ℕ) (f : Fresh)
      (s : Passkeys)
      → (check_key x v value r device in_body now f s).0.challenges ≡ s.challenges
  unfolding check_key accept_key
  challenges-check_key value r device in_body now f s = elim (Option-cases (key_by_id r.id s)) [
    | inl e ↦ rw (check_key, e) refl
    | inr (k, e) ↦ elim (Option-cases (user_by_id k.user_id s.server)) [
      | inl e2 ↦ rw (check_key, e, e2) refl
      | inr (u, e2) ↦ elim (Option-cases (v.authenticated r value k.public_key k.sign_count)) [
        | inl e3 ↦ rw (check_key, e, e2, e3) refl
        | inr (n, e3) ↦ rw (check_key, e, e2, e3) refl
      ]
    ]
  ]

  spend_challenge_lem :
      (value : String) (r : Response) (device : String) (in_body : Bool) (now : ℕ) (f : Fresh)
      (s : Passkeys)
      → (spend_challenge x v value r device in_body now f s).0.challenges
        ≡ filter (λ c. not (is_login value now c)) s.challenges
  unfolding spend_challenge
  spend_challenge_lem value r device in_body now f s =
      elim (Option-cases (find (is_login value now) s.challenges)) [
        | inl e ↦ rw (spend_challenge, e) refl
        | inr (row, e) ↦
            rw (spend_challenge, e) (challenges-check_key value r device in_body now f _)
      ]

  spend_again :
      (value : String) (r : Response) (device : String) (in_body : Bool) (now : ℕ) (f : Fresh)
      (s : Passkeys)
      → Spent value now s.challenges
      → is_replied (spend_challenge x v value r device in_body now f s).1 ≡ false
  unfolding spend_challenge
  spend_again value r device in_body now f s h =
      rw (is_replied, spend_challenge, nothing_found value now s.challenges h) refl

-- A request to one of the four routes; the user and device of the first two come with the session.
pub data Request : Type 0 where
  ask_registration : String → String → ℕ → Request
  register : String → Option String → Response → Option String → ℕ → Request
  ask_login : String → String → ℕ → Request
  log_in : String → Response → String → Bool → ℕ → Fresh → Request

-- Whether a request does not draw a challenge anew for a login.
abbrev pub DrawsOther : String → Request → Type 0
DrawsOther value (ask_registration user c now) = Unit
DrawsOther value (register user device r label now) = Unit
DrawsOther value (ask_login address c now) = c ≢ value
DrawsOther value (log_in address r device in_body now f) = Unit

module _ (x : Services) (v : Verifier) where
  unfoldable pub serve : Request → Passkeys → Passkeys × Answer
  serve (ask_registration user c now) s = register_options user c now s
  serve (register user device r label now) s = register_verify v user device r label now s
  serve (ask_login address c now) s = login_options address c now s
  serve (log_in address r device in_body now f) s =
      login_verify x v address r device in_body now f s

  unfoldable pub serve_all : List Request → Passkeys → Passkeys
  serve_all [] s = s
  serve_all (q ∷ l) s = serve_all l (serve q s).0

  and_false : (b : Bool) → (b && false) ≡ false
  and_false true = refl
  and_false false = refl

  append_other :
      (value : String) (now : ℕ) (l : List Challenge) (c : Challenge)
      → Spent value now l
      → is_login value now c ≡ false
      → Spent value now (l ++ c ∷ [])
  unfolding Spent
  append_other value now l c h e = ground (arith, any-append (is_login value now) l (c ∷ []))

  register_options-Spent :
      (value user c : String) (now at : ℕ) (s : Passkeys)
      → Spent value now s.challenges
      → Spent value now (register_options user c at s).0.challenges
  unfolding register_options
  register_options-Spent value user c now at s h = elim (Option-cases (user_by_id user s.server)) [
    | inl e ↦ rw (register_options, e) h
    | inr (u, e) ↦
        rw (register_options, e)
          (append_other value now s.challenges _ h (and_false (text_eqb c value)))
  ]

  challenges-insert_key :
      (k : Passkey) (s : Passkeys) → (insert_key k s).0.challenges ≡ s.challenges
  unfolding insert_key
  challenges-insert_key k s = elim (Bool-cases (any (λ o. text_eqb o.id k.id) s.keys)) [
    | inl e ↦ rw (insert_key, e) refl
    | inr e ↦ rw (insert_key, e) refl
  ]

  register_verify-Spent :
      (value user : String) (device : Option String) (r : Response) (label : Option String)
      (now at : ℕ) (s : Passkeys)
      → Spent value now s.challenges
      → Spent value now (register_verify v user device r label at s).0.challenges
  unfolding register_verify
  register_verify-Spent value user device r label now at s h =
      let kept = filter-Spent value now (λ c. not (is_own_registration user at c)) s.challenges h in
      elim (Option-cases (find (is_own_registration user at) s.challenges)) [
        | inl e ↦ rw (register_verify, e) kept
        | inr (row, e) ↦ elim (Option-cases (v.registered r row.challenge)) [
          | inl e2 ↦ rw (register_verify, e, e2) kept
          | inr (k, e2) ↦
              rw (register_verify, e, e2)
                (subst (Spent value now) (sym (challenges-insert_key _ _)) kept)
        ]
      ]

  login_options-Spent :
      (value address c : String) (now at : ℕ) (s : Passkeys)
      → c ≢ value
      → Spent value now s.challenges
      → Spent value now (login_options address c at s).0.challenges
  unfolding login_options
  login_options-Spent value address c now at s other h =
      elim (Bool-cases (within_rate_limit s.server (append_text "webauthn-login:" address) at).1) [
        | inl e ↦
            rw (login_options, e)
              (append_other value now s.challenges _ h (not_equal c value _ other))
        | inr e ↦ rw (login_options, e) h
      ]
    where
      not_equal : (a b : String) (t : Bool) → a ≢ b → (text_eqb a b && t) ≡ false
      not_equal a b t h = ground arith

  spend_challenge-Spent :
      (value w : String) (r : Response) (device : String) (in_body : Bool) (now at : ℕ) (f : Fresh)
      (s : Passkeys)
      → Spent value now s.challenges
      → Spent value now (spend_challenge x v w r device in_body at f s).0.challenges
  spend_challenge-Spent value w r device in_body now at f s h =
      subst (Spent value now) (sym (spend_challenge_lem x v w r device in_body at f s))
        (filter-Spent value now (λ c. not (is_login w at c)) s.challenges h)

  login_verify-Spent :
      (value address : String) (r : Response) (device : String) (in_body : Bool) (now at : ℕ)
      (f : Fresh) (s : Passkeys)
      → Spent value now s.challenges
      → Spent value now (login_verify x v address r device in_body at f s).0.challenges
  unfolding login_verify
  login_verify-Spent value address r device in_body now at f s h =
      elim (Bool-cases (within_rate_limit s.server (append_text "webauthn-login:" address) at).1) [
        | inr e ↦ rw (login_verify, e) h
        | inl e ↦ elim (Bool-cases (text_eqb device "")) [
          | inl e2 ↦ rw (login_verify, e, e2) h
          | inr e2 ↦ elim (Option-cases (v.challenge_in r)) [
            | inl e3 ↦ rw (login_verify, e, e2, e3) h
            | inr (w, e3) ↦
                rw (login_verify, e, e2, e3)
                  (spend_challenge-Spent value w r device in_body now at f _ h)
          ]
        ]
      ]

  serve-Spent :
      (value : String) (now : ℕ) (q : Request) (s : Passkeys)
      → DrawsOther value q
      → Spent value now s.challenges
      → Spent value now (serve q s).0.challenges
  unfolding serve
  serve-Spent value now (ask_registration user c at) s other h =
      register_options-Spent value user c now at s h
  serve-Spent value now (register user device r label at) s other h =
      register_verify-Spent value user device r label now at s h
  serve-Spent value now (ask_login address c at) s other h =
      login_options-Spent value address c now at s other h
  serve-Spent value now (log_in address r device in_body at f) s other h =
      login_verify-Spent value address r device in_body now at f s h

  serve_all-Spent :
      (value : String) (now : ℕ) (l : List Request) (s : Passkeys)
      → All (DrawsOther value) l
      → Spent value now s.challenges
      → Spent value now (serve_all l s).challenges
  unfolding serve_all
  serve_all-Spent value now [] s other h = h
  serve_all-Spent value now (q ∷ l) s (here, other) h =
      serve_all-Spent value now l (serve q s).0 other (serve-Spent value now q s here h)

  -- A login that succeeded has taken its challenge.
  replied-Spent :
      (value address : String) (r : Response) (device : String) (in_body : Bool) (now : ℕ)
      (f : Fresh) (s : Passkeys)
      → v.challenge_in r ≡ some value
      → is_replied (login_verify x v address r device in_body now f s).1 ≡ true
      → Spent value now (login_verify x v address r device in_body now f s).0.challenges
  unfolding login_verify
  replied-Spent value address r device in_body now f s e3 h =
      elim (Bool-cases (within_rate_limit s.server (append_text "webauthn-login:" address) now).1) [
        | inr e ↦ absurd (cc (rw (is_replied, login_verify, e) at h))
        | inl e ↦ elim (Bool-cases (text_eqb device "")) [
          | inl e2 ↦ absurd (cc (rw (is_replied, login_verify, e, e2) at h))
          | inr e2 ↦
              rw (login_verify, e, e2, e3)
                (subst (Spent value now)
                  (sym (spend_challenge_lem x v value r device in_body now f _))
                  (filter-Spent_rest value now s.challenges))
        ]
      ]

  spent_refuses :
      (value address : String) (r : Response) (device : String) (in_body : Bool) (now : ℕ)
      (f : Fresh) (s : Passkeys)
      → v.challenge_in r ≡ some value
      → Spent value now s.challenges
      → is_replied (login_verify x v address r device in_body now f s).1 ≡ false
  unfolding login_verify
  spent_refuses value address r device in_body now f s e3 h =
      elim (Bool-cases (within_rate_limit s.server (append_text "webauthn-login:" address) now).1) [
        | inr e ↦ rw (is_replied, login_verify, e) refl
        | inl e ↦ elim (Bool-cases (text_eqb device "")) [
          | inl e2 ↦ rw (is_replied, login_verify, e, e2) refl
          | inr e2 ↦ rw (login_verify, e, e2, e3) (spend_again x v value r device in_body now f _ h)
        ]
      ]

-- A passkey challenge buys at most one login: once a login with it has succeeded, then after any
-- requests that do not draw the same challenge anew, an attempt with it at a later time fails,
-- whatever response, device and address it comes with.
pub challenge_once :
    (x : Services) (v : Verifier) (value address other_address : String) (r other : Response)
    (device other_device : String) (in_body other_in_body : Bool) (now later : ℕ) (f g : Fresh)
    (s : Passkeys) (l : List Request)
    → v.challenge_in r ≡ some value
    → is_replied (login_verify x v address r device in_body now f s).1 ≡ true
    → All (DrawsOther value) l
    → now ≤ later
    → v.challenge_in other ≡ some value
    → is_replied
        (login_verify x v other_address other other_device other_in_body later g
          (serve_all x v l (login_verify x v address r device in_body now f s).0)).1
      ≡ false
challenge_once x v value address other_address r other device other_device in_body other_in_body now
      later f g s l e ok draws le e2 =
    spent_refuses x v value other_address other other_device other_in_body later g _ e2 (
      Spent_mono value now later _ le (
        serve_all-Spent x v value now l _ draws
          (replied-Spent x v value address r device in_body now f s e ok)))
