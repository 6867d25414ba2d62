-- ===== src/Server/TotpChange/Reauthentication.antt =====
-- The active secret of a user changes only after a reauthentication (server/src/auth.ts,
-- /totp/change/start and /confirm), over histories of requests.
use mekamb_chat.Common.{
  ℕ, ◌≡◌, ◌≢◌, refl, sym, ap, ◌∙◌, inl, inr, String, Bool, false, ◌&&◌, ◌||◌, Option, none, some,
  List, [], ◌∷◌, map, if◌then◌else◌, text_eqb, text_eqb→eq, text_eqb→ne, text_discrete, Bool-cases,
  Option-cases, arith,
}
use mekamb_chat.Common.Int.{ℤ}
use mekamb_chat.Common.Keyed.{get, get-set_ne, get-delete_ne}
use mekamb_chat.Server.Auth.State.{User, Services, Fresh, user_by_id}
use mekamb_chat.Server.Auth.Login.{active_user}
use mekamb_chat.Server.Auth.Totp.{verify_code}
use mekamb_chat.Server.Passkeys.{Response, Verifier}
use mekamb_chat.Server.TotpChange.Effects.{
  secret_of, secret_in, is_started, Effect, reauthenticate-Effect, find_id, only_active_same,
}
use mekamb_chat.Server.TotpChange.{
  Change, Reply, change_options, reauthenticate, change_start, switch_secret, confirm_pending,
  known_pending, change_confirm,
}

pub data Request : Type 0 where
  asks : String → String → Request
  starts : String → Option (List ℕ) → Option Response → Fresh → Request
  confirms : String → List ℕ → Request

module _ (x : Services) (v : Verifier) where
  unfoldable pub step : ℕ → Request → Change → Change × Reply
  step now (asks user value) s = change_options user value now s
  step now (starts user code response f) s = change_start x v user code response now f s
  step now (confirms user code) s = change_confirm x v user code now s

  unfoldable pub run : List (ℕ × Request) → Change → Change
  unfolding step
  run [] s = s
  run ((now, r) ∷ rs) s = run rs (step now r s).0

  -- Whether the request is a start for `user` that is let through.
  abbrev pub lets_start : String → Request → Reply → Bool
  lets_start user (asks a value) reply = false
  lets_start user (starts a code response f) reply = text_eqb a user && is_started reply
  lets_start user (confirms a code) reply = false

  unfoldable pub restarted : String → List (ℕ × Request) → Change → Bool
  unfolding step
  restarted user [] s = false
  restarted user ((now, r) ∷ rs) s =
      lets_start user r (step now r s).1 || restarted user rs (step now r s).0

  -- Nothing waits for the user, and the active secret is the one before.
  record Kept (user : String) (s t : Change) : Type 0 where
    secret : secret_in user t ≡ secret_in user s
    none_waits : get text_discrete user t.pendings ≡ none

  unchanged :
      (user : String) (s : Change) → get text_discrete user s.pendings ≡ none → Kept user s s
  unchanged user s h = record { secret = refl; none_waits = h }

  Effect-Kept :
      (user a : String) (u : User) (s : Change) (o : Change × Reply)
      → u.id ≡ a
      → Effect x v u s o
      → get text_discrete user s.pendings ≡ none
      → (text_eqb a user && is_started o.1) ≡ false
      → Kept user s o.0
  Effect-Kept user a u s o same e h no_start = record {
    secret = e.secrets user;
    none_waits = elim e.waiting [
      | inl k ↦ rw k h
      | inr (let_in, sealed, k) ↦
          let other : text_eqb a user ≡ false = ground arith in
          let apart : u.id ≢ user = λ q. text_eqb→ne a user other (sym same ∙ q) in
          rw k (get-set_ne text_discrete u.id user sealed s.pendings apart ∙ h)
    ];
  }

  start-Kept :
      (user a : String) (code : Option (List ℕ)) (response : Option Response) (now : ℕ) (f : Fresh)
      (s : Change)
      → get text_discrete user s.pendings ≡ none
      → (text_eqb a user && is_started (change_start x v a code response now f s).1) ≡ false
      → Kept user s (change_start x v a code response now f s).0
  unfolding change_start user_by_id
  start-Kept user a code response now f s h no_start =
      elim (Option-cases (active_user (user_by_id a s.passkeys.server))) [
        | inl e ↦ rw (e, change_start) (unchanged user s h)
        | inr (u, e) ↦
            let opened : change_start x v a code response now f s
                ≡ reauthenticate x v u code response now f s =
              rw (e, change_start) in
            let id : u.id ≡ a =
              find_id x v a s.passkeys.server.users u
                (only_active_same x v (user_by_id a s.passkeys.server) u e) in
            rw opened (
              Effect-Kept user a u s (reauthenticate x v u code response now f s) id
                (reauthenticate-Effect x v u code response now f s) h (rw (← opened) no_start))
      ]

  secret_of-switch :
      (user a sealed : String) (k : ℤ) (users : List User)
      → a ≢ user
      → secret_of user (
          map
            (λ u.
              if text_eqb u.id a
              then record u { totp_secret_enc = sealed; last_counter = some k }
              else u)
            users)
        ≡ secret_of user users
  secret_of-switch user a sealed k [] h = refl
  secret_of-switch user a sealed k (u ∷ us) h = elim (Bool-cases (text_eqb u.id a)) [
    | inl e ↦
        let at : u.id ≡ a = text_eqb→eq u.id a e in
        let apart : text_eqb u.id user ≡ false = other u.id user (λ q. h (sym at ∙ q)) in
        rw (e, apart, secret_of-switch user a sealed k us h)
    | inr e ↦ rw (e, secret_of-switch user a sealed k us h)
  ]
    where
      other : (b c : String) → b ≢ c → text_eqb b c ≡ false
      other b c apart = elim (Bool-cases (text_eqb b c)) [
        | inl q ↦ absurd (apart (text_eqb→eq b c q))
        | inr q ↦ q
      ]

  confirm_pending-Kept :
      (user a sealed : String) (code : List ℕ) (now : ℕ) (s : Change)
      → a ≢ user
      → get text_discrete user s.pendings ≡ none
      → Kept user s (confirm_pending x v a sealed code now s).0
  unfolding confirm_pending switch_secret
  confirm_pending-Kept user a sealed code now s apart h = elim (Option-cases (x.decrypt sealed)) [
    | inl e ↦ rw (e, confirm_pending) (unchanged user s h)
    | inr (secret, e) ↦ elim (Option-cases (verify_code x secret code now)) [
      | inl e' ↦ rw (e, e', confirm_pending) (unchanged user s h)
      | inr (k, e') ↦
          rw (e, e', confirm_pending)
            (record {
              secret = secret_of-switch user a sealed k s.passkeys.server.users apart;
              none_waits = get-delete_ne text_discrete a user s.pendings apart ∙ h;
            })
    ]
  ]

  waits_for :
      (o : Option User) (w : Option String) (sealed : String)
      → known_pending x v o w ≡ some sealed
      → w ≡ some sealed
  waits_for none w sealed h = absurd (cc h)
  waits_for (some u) w sealed h = h

  confirm-Kept :
      (user a : String) (code : List ℕ) (now : ℕ) (s : Change)
      → get text_discrete user s.pendings ≡ none
      → Kept user s (change_confirm x v a code now s).0
  unfolding change_confirm
  confirm-Kept user a code now s h =
      let o = user_by_id a s.passkeys.server in
      let w = get text_discrete a s.pendings in
      elim (Option-cases (known_pending x v o w)) [
        | inl e ↦ rw (e, change_confirm) (unchanged user s h)
        | inr (sealed, e) ↦
            rw (e, change_confirm)
              (confirm_pending-Kept user a sealed code now s
                (λ q. cc (waits_for o w sealed e, h, ap (λ z. get text_discrete z s.pendings) q)) h)
      ]

  step-Kept :
      (user : String) (now : ℕ) (r : Request) (s : Change)
      → get text_discrete user s.pendings ≡ none
      → lets_start user r (step now r s).1 ≡ false
      → Kept user s (step now r s).0
  unfolding step change_options
  step-Kept user now (asks a value) s h no_start = record { secret = refl; none_waits = h }
  step-Kept user now (starts a code response f) s h no_start =
      start-Kept user a code response now f s h no_start
  step-Kept user now (confirms a code) s h no_start = confirm-Kept user a code now s h

  -- No new authenticator without a reauthentication: where no secret waits for a user, then whatever
  -- requests for a change come from anyone, the user's active secret stays the same as long as none
  -- of the user's own starts is let through.
  pub secret_in-run :
      (user : String) (rs : List (ℕ × Request)) (s : Change)
      → get text_discrete user s.pendings ≡ none
      → restarted user rs s ≡ false
      → secret_in user (run rs s) ≡ secret_in user s
  unfolding run restarted
  secret_in-run user [] s h no_start = refl
  secret_in-run user ((now, r) ∷ rs) s h no_start =
      let kept = step-Kept user now r s h (ground arith) in
      secret_in-run user rs (step now r s).0 kept.none_waits (ground arith) ∙ kept.secret
