-- ===== src/Server/Auth/History.antt =====
-- Histories of the authentication service: any requests to the routes of server/src/auth.ts that
-- write to its tables, each at a time and with the random values that it draws.
use mekamb_chat.Common.{ℕ, String, Bool, true, false, ◌&&◌, Option, List, [], ◌∷◌, text_eqb, any}
use mekamb_chat.Server.Auth.State.{Server, Services, Fresh, Reply, totp_required, signed_in}
use mekamb_chat.Server.Auth.Register.{register_finish, register_confirm}
use mekamb_chat.Server.Auth.Login.{login_start, login_finish, login_totp}
use mekamb_chat.Server.Auth.Lasting.{refresh, logout}

pub data Request : Type 0 where
  enrols : String → String → Request
  confirms : String → List ℕ → Option String → Bool → Request
  starts : String → String → Request
  finishes : String → String → String → Request
  submits : String → List ℕ → Option String → Bool → Request
  refreshes : Option String → Option String → Option String → Bool → Request
  leaves : Option String → Option String → Option String → Request

pub record Arrival : Type 0 where
  pub request : Request
  pub now : ℕ
  pub fresh : Fresh

pub record Entry : Type 0 where
  pub request : Request
  pub reply : Reply

module _ (x : Services) where
  unfoldable pub handle : Server → Request → ℕ → Fresh → Server × Reply
  handle s (enrols name upload) now f = register_finish x s name upload f
  handle s (confirms name code device b) now f = register_confirm x s name code device b now f
  handle s (starts name ke1) now f = login_start x s name ke1 now f
  handle s (finishes id name ke3) now f = login_finish x s id name ke3 now
  handle s (submits id code device b) now f = login_totp x s id code device b now f
  handle s (refreshes cookie device token b) now f = refresh x s cookie device token b now f
  handle s (leaves cookie device token) now f = logout x s cookie device token

  -- The state at the end, and the log of the requests with their answers, latest first.
  unfoldable pub serve : Server → List Entry → List Arrival → Server × List Entry
  unfolding handle
  serve s log [] = (s, log)
  serve s log (a ∷ as') =
      let (t, reply) = handle s a.request a.now a.fresh in
      serve t (record { request = a.request; reply = reply } ∷ log) as'

abbrev pub is_finish : String → Request → Bool
is_finish id (finishes j name ke3) = text_eqb j id
is_finish id _ = false

abbrev pub is_totp_required : Reply → Bool
is_totp_required (totp_required id) = true
is_totp_required _ = false

abbrev pub is_signed_in : Reply → Bool
is_signed_in (signed_in g) = true
is_signed_in _ = false

-- The log holds a second round of the login `id` that succeeded.
abbrev pub finished : String → List Entry → Bool
finished id log = any (λ e. is_finish id e.request && is_totp_required e.reply) log
