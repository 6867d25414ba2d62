-- ===== src/Server/Auth/Totp.antt =====
-- One-time codes (server/src/totp.ts). The library's `validate` gives the distance of the code's
-- window from the present one.
use mekamb_chat.Common.{
  ℕ, ◌/◌, Bool, false, ◌&&◌, Option, none, some, String, List, leb, ◌==◌, if◌then◌else◌, length,
  all,
}
use mekamb_chat.Common.Int.{ℤ, pos, ◌+ℤ◌, leb_ℤ}
use mekamb_chat.Server.Auth.State.{Services}

abbrev pub period_ms : ℕ
period_ms = 30000

-- `/^\d{6}$/`
unfoldable pub is_code : List ℕ → Bool
is_code code = length code == 6 && all (λ c. leb 48 c && leb c 57) code

-- `verifyCode`: the window of a valid code.
unfoldable pub verify_code : Services → String → List ℕ → ℕ → Option ℤ
unfolding is_code
verify_code x secret code now =
    if is_code code
    then elim (x.totp_validate secret code now) [
      | none ↦ none
      | some delta ↦ some (pos (now / period_ms) +ℤ delta)
    ]
    else none

-- `isReplay`
unfoldable pub is_replay : ℤ → Option ℤ → Bool
is_replay counter none = false
is_replay counter (some last) = leb_ℤ counter last
