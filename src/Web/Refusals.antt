-- ===== src/Web/Refusals.antt =====
-- What a refusal of the relay means to the client (web/src/lib/relay.ts).
use mekamb_chat.Common.{
  ℕ, ◌≤◌, ◌<◌, ◌≡◌, ◌↔◌, String, ◌&&◌, ◌||◌, Option, none, some, leb, ltb, ◌==◌, if◌then◌else◌,
  is_some, true, arith,
}

-- `WYSCIG`
abbrev pub race : String
race = "Ktoś zmienił skład tej rozmowy w tej samej chwili. Spróbuj jeszcze raz."

-- `odmowaRelaya`: `none` where it is not known whether the epoch was taken.
unfoldable pub refusal : ℕ → Option String
refusal status =
    if status == 409
    then some race
    else if status == 401 || status == 403
    then some "Sesja wygasła. Zaloguj się ponownie i powtórz tę zmianę."
    else if leb 400 status && ltb status 500
    then some
        "Serwer nie przyjął zmiany składu rozmowy — najpewniej działa w starszej wersji niż ta aplikacja. Spróbuj ponownie, gdy zostanie zaktualizowany."
    else none

-- The prepared commit is given up for the statuses of a request that was refused, and for no other.
refusal_client_errors :
    (status : ℕ) → (is_some (refusal status) ≡ true) ↔ ((400 ≤ status) × (status < 500))
unfolding refusal
refusal_client_errors status = (λ h. ground arith, λ h. ground arith)
