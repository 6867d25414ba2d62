-- ===== src/Server/Auth/Rotation.antt =====
-- The refresh tokens of a device (server/src/auth.ts `/refresh`, `/logout`; server/src/session.ts).
use mekamb_chat.Common.{
  ℕ, ◌+◌, ◌≡◌, ◌≢◌, refl, subst, ◌∙◌, ◌⊎◌, String, append_text, Bool, true, false, not, ◌&&◌, none,
  some, Option-cases, Bool-cases, inl, inr, List, [], ◌∷◌, arith, ltb, text_eqb, text_eqb→eq, any,
  find, filter,
}
use mekamb_chat.Server.Auth.State.{
  Refresh, Server, Services, Fresh, upsert_refresh, truthy, issue_refresh_token, within_rate_limit,
  sign_in, refresh_token_ttl_ms,
}
use mekamb_chat.Server.Auth.Lasting.{is_token, rotate, exchange, logout}
use mekamb_chat.Server.Auth.History.{is_signed_in}

-- UNIQUE(device_id)
abbrev pub UniqueRefreshes : List Refresh → Type 0
UniqueRefreshes [] = Unit {0}
UniqueRefreshes (r ∷ rs) =
    (any (λ y. text_eqb y.device_id r.device_id) rs ≡ false) × UniqueRefreshes rs

any_upsert :
    (r : Refresh) (d : String) (rs : List Refresh)
    → text_eqb r.device_id d ≡ false
    → any (λ y. text_eqb y.device_id d) (upsert_refresh r rs) ≡ any (λ y. text_eqb y.device_id d) rs
any_upsert r d [] h = ground arith
any_upsert r d (y ∷ ys) h = ground (arith, any_upsert r d ys h)

pub upsert-UniqueRefreshes :
    (r : Refresh) (rs : List Refresh) → UniqueRefreshes rs → UniqueRefreshes (upsert_refresh r rs)
upsert-UniqueRefreshes r [] h = (refl, tt)
upsert-UniqueRefreshes r (y ∷ ys) h = elim (Bool-cases (text_eqb y.device_id r.device_id)) [
  | inl e ↦
      rw e (subst (λ d. any (λ z. text_eqb z.device_id d) ys ≡ false) (text_eqb→eq _ _ e) h.0, h.1)
  | inr e ↦ rw e (any_upsert r y.device_id ys (ground arith) ∙ h.0, upsert-UniqueRefreshes r ys h.1)
]

module _ (x : Services) where
  no_device-no_token :
      (d raw : String) (rs : List Refresh)
      → any (λ y. text_eqb y.device_id d) rs ≡ false
      → any (is_token x d raw) rs ≡ false
  no_device-no_token d raw [] h = refl
  no_device-no_token d raw (r ∷ rs) h = ground (arith, no_device-no_token d raw rs)

  -- After a row is written for a device, that row's token is the only one that the device has.
  token_upsert :
      (r : Refresh) (raw : String) (rs : List Refresh)
      → UniqueRefreshes rs
      → any (is_token x r.device_id raw) (upsert_refresh r rs) ≡ text_eqb r.token_hash (x.hash raw)
  token_upsert r raw [] h = ground arith
  token_upsert r raw (y ∷ ys) h = elim (Bool-cases (text_eqb y.device_id r.device_id)) [
    | inl e ↦ rw e (
        rw
          (no_device-no_token r.device_id raw ys
            (subst (λ d. any (λ z. text_eqb z.device_id d) ys ≡ false) (text_eqb→eq _ _ e) h.0))
          (ground arith))
    | inr e ↦ rw e (ground (arith, token_upsert r raw ys h.1))
  ]

  find-none :
      (d raw : String) (now : ℕ) (rs : List Refresh)
      → any (is_token x d raw) rs ≡ false
      → find (λ r. is_token x d raw r && ltb now r.expires_at) rs ≡ none
  find-none d raw now [] h = refl
  find-none d raw now (r ∷ rs) h = ground (arith, find-none d raw now rs)

  -- A token that no row holds is never exchanged.
  exchange_none :
      (s : Server) (d raw : String) (b : Bool) (now : ℕ) (f : Fresh)
      → any (is_token x d raw) s.refreshes ≡ false
      → is_signed_in (exchange x s raw d b now f).1 ≡ false
  unfolding exchange within_rate_limit
  exchange_none s d raw b now f h =
      elim (Bool-cases (within_rate_limit s (append_text "refresh:" d) now).1) [
        | inl e ↦ rw (e, find-none d raw now s.refreshes h) refl
        | inr e ↦ rw e refl
      ]

  issue_evicts :
      (u d raw : String) (now : ℕ) (f : Fresh) (s : Server)
      → UniqueRefreshes s.refreshes
      → x.hash f.refresh_token ≢ x.hash raw
      → any (is_token x d raw) (issue_refresh_token x u d now f s).refreshes ≡ false
  unfolding issue_refresh_token
  issue_evicts u d raw now f s v h =
      token_upsert
        (record {
          id = f.row_uuid;
          user_id = u;
          device_id = d;
          token_hash = x.hash f.refresh_token;
          expires_at = now + refresh_token_ttl_ms;
        })
        raw s.refreshes v
      ∙ ground arith

  exchange_evicts :
      (s : Server) (raw d : String) (b : Bool) (now : ℕ) (f : Fresh)
      → UniqueRefreshes s.refreshes
      → x.hash f.refresh_token ≢ x.hash raw
      → is_signed_in (exchange x s raw d b now f).1 ≡ true
      → any (is_token x d raw) (exchange x s raw d b now f).0.refreshes ≡ false
  unfolding exchange within_rate_limit rotate
  exchange_evicts s raw d b now f v h done =
      let limited = within_rate_limit s (append_text "refresh:" d) now in
      elim (Bool-cases limited.1) [
        | inl e ↦
            elim (Option-cases
              (find (λ r. is_token x d raw r && ltb now r.expires_at) s.refreshes)) [
                | inl k ↦ absurd (cc (rw (e, k) at done))
                | inr (r, k) ↦ rw (e, k, rotate) (issue_evicts r.user_id d raw now f limited.0 v h)
              ]
        | inr e ↦ absurd (cc (rw e at done))
      ]

  no_match :
      (d raw : String) (rs : List Refresh)
      → any (is_token x d raw) (filter (λ r. not (is_token x d raw r)) rs) ≡ false
  no_match d raw [] = refl
  no_match d raw (r ∷ rs) = ground (arith, no_match d raw rs)

  other_match :
      (d raw e other : String) (rs : List Refresh)
      → (e ≢ d) ⊎ (x.hash other ≢ x.hash raw)
      → any (is_token x e other) (filter (λ r. not (is_token x d raw r)) rs)
        ≡ any (is_token x e other) rs
  other_match d raw e other [] h = refl
  other_match d raw e other (r ∷ rs) h = ground (arith, other_match d raw e other rs h)

  -- A refresh token is good for one exchange: where no device has two and it has bought a new one,
  -- whose hash differs, the old one is refused when it is presented next, at any time.
  pub exchange_rotates :
      (s : Server) (raw d : String) (b b' : Bool) (now later : ℕ) (f f' : Fresh)
      → UniqueRefreshes s.refreshes
      → x.hash f.refresh_token ≢ x.hash raw
      → is_signed_in (exchange x s raw d b now f).1 ≡ true
      → is_signed_in (exchange x (exchange x s raw d b now f).0 raw d b' later f').1 ≡ false
  exchange_rotates s raw d b b' now later f f' v h done =
      exchange_none (exchange x s raw d b now f).0 d raw b' later f'
        (exchange_evicts s raw d b now f v h done)

  -- Signing in under a device's identifier, not empty, ends the lasting session that this device had,
  -- whoever it belonged to: where no device has two refresh tokens, one with another hash than the
  -- new one is refused when it is presented next.
  pub sign_in_evicts :
      (s : Server) (user raw d : String) (b b' : Bool) (now later : ℕ) (f f' : Fresh)
      → UniqueRefreshes s.refreshes
      → truthy (some d) ≡ some d
      → x.hash f.refresh_token ≢ x.hash raw
      → is_signed_in (exchange x (sign_in x user (some d) b now f s).0 raw d b' later f').1 ≡ false
  sign_in_evicts s user raw d b b' now later f f' v t h =
      exchange_none _ d raw b' later f'
        (unfold sign_in in rw (t, sign_in) (issue_evicts user d raw now f s v h))

  -- Logging out with a device and its token, neither empty, removes just the rows that match both:
  -- the token is refused when it is presented next, and a pair that differs in the device or in the
  -- token's hash has its row as before.
  pub logout_lem :
      (s : Server) (raw d e other : String) (b : Bool) (later : ℕ) (f : Fresh)
      → truthy (some raw) ≡ some raw
      → truthy (some d) ≡ some d
      → (e ≢ d) ⊎ (x.hash other ≢ x.hash raw)
      → (is_signed_in (exchange x (logout x s none (some d) (some raw)).0 raw d b later f).1
          ≡ false)
        × (any (is_token x e other) (logout x s none (some d) (some raw)).0.refreshes
            ≡ any (is_token x e other) s.refreshes)
  unfolding logout
  logout_lem s raw d e other b later f t t' h =
      rw (t, t', logout)
        (
          exchange_none
              (record s { refreshes = filter (λ r. not (is_token x d raw r)) s.refreshes }) d raw b
              later f (no_match d raw s.refreshes),
          other_match d raw e other s.refreshes h,
        )
