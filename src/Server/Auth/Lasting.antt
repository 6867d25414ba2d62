-- ===== src/Server/Auth/Lasting.antt =====
-- The lasting session: `/refresh` and `/logout` (server/src/auth.ts).
use mekamb_chat.Common.{
  ℕ, ◌+◌, String, append_text, Bool, not, ◌&&◌, ◌||◌, Option, none, some, ltb, if◌then◌else◌,
  is_some, text_eqb, filter, find,
}
use mekamb_chat.Server.Auth.State.{
  Refresh, Server, Services, Fresh, Reply, refused, refused_cleared, signed_in, signed_out,
  token_ttl_ms, within_rate_limit, truthy, issue_refresh_token,
}

-- `getCookie(…) ?? body.refreshToken`
abbrev pub presented : Option String → Option String → Option String
presented (some c) in_body = some c
presented none in_body = in_body

module _ (x : Services) where
  -- WHERE device_id = ? AND token_hash = ?
  abbrev pub is_token : String → String → Refresh → Bool
  is_token device raw r = text_eqb r.device_id device && text_eqb r.token_hash (x.hash raw)

  unfoldable pub rotate : Server → String → String → Bool → ℕ → Fresh → Server × Reply
  unfolding issue_refresh_token
  rotate s device user_id in_body now f =
      let expires = now + token_ttl_ms in
      (
        issue_refresh_token x user_id device now f s,
        signed_in (record {
          token =
              x.sign (record { user_id = user_id; device_id = some device; expires_at = expires });
          expires_at = expires;
          cookie = some f.refresh_token;
          in_body = if in_body then some f.refresh_token else none;
        }),
      )

  -- POST /refresh, with a token and a device.
  unfoldable pub exchange : Server → String → String → Bool → ℕ → Fresh → Server × Reply
  unfolding within_rate_limit rotate
  exchange s raw device in_body now f =
      let limited = within_rate_limit s (append_text "refresh:" device) now in
      if limited.1
      then elim (find (λ r. is_token device raw r && ltb now r.expires_at) limited.0.refreshes) [
        | none ↦ (limited.0, refused_cleared 401 "trwała sesja wygasła")
        | some r ↦ rotate limited.0 device r.user_id in_body now f
      ]
      else (limited.0, refused 429 "zbyt wiele prób")

  -- POST /refresh
  unfoldable pub refresh :
      Server → Option String → Option String → Option String → Bool → ℕ → Fresh → Server × Reply
  unfolding exchange
  refresh s cookie device token in_body now f = elim (truthy (presented cookie token)) [
    | none ↦ (s, refused 401 "brak trwałej sesji")
    | some raw ↦ elim (truthy device) [
      | none ↦ (s, refused 401 "brak trwałej sesji")
      | some d ↦ exchange s raw d (in_body || is_some (truthy token)) now f
    ]
  ]

  -- POST /logout
  unfoldable pub logout : Server → Option String → Option String → Option String → Server × Reply
  logout s cookie device token = elim (truthy (presented cookie token)) [
    | none ↦ (s, signed_out)
    | some raw ↦ elim (truthy device) [
      | none ↦ (s, signed_out)
      | some d ↦
          (record s { refreshes = filter (λ r. not (is_token d raw r)) s.refreshes }, signed_out)
    ]
  ]
