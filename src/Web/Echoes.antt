-- ===== src/Web/Echoes.antt =====
-- The envelopes that the client sent itself and will get back (web/src/lib/echa.ts). The digest is
-- SHA-256 of the browser.
use mekamb_chat.Common.{
  ℕ, ◌+◌, ◌*◌, ◌≤◌, ◌≡◌, String, Bool, true, false, not, List, [], ltb, filter, is_some,
  text_discrete, take_last, length, length-take_last, if◌then◌else◌, arith,
}
use mekamb_chat.Common.Keyed.{get, set, delete, get-delete_self}

abbrev pub life_ms : ℕ
life_ms = 10 * 60 * 1000

abbrev pub echo_limit : ℕ
echo_limit = 512

abbrev pub Known : Type 0
Known = List (String × ℕ)

-- `posprzataj`: what is too old, and then the oldest beyond the limit.
unfoldable pub tidy : ℕ → Known → Known
tidy now known = take_last echo_limit (filter (λ entry. not (ltb (entry.1 + life_ms) now)) known)

-- `zapamietaj`
unfoldable pub remember : (List ℕ → String) → List ℕ → ℕ → Known → Known
unfolding tidy
remember digest envelope now known = tidy now (set text_discrete (digest envelope) now known)

-- `czyWlasna`: what is left, and whether the envelope was known.
unfoldable pub take_own : (List ℕ → String) → List ℕ → Known → Known × Bool
take_own digest envelope known =
    if is_some (get text_discrete (digest envelope) known)
    then (delete text_discrete (digest envelope) known, true)
    else (known, false)

-- `zapomnijWszystko`
unfoldable pub forget_all : Known → Known
forget_all known = []

length-remember :
    (digest : List ℕ → String) (envelope : List ℕ) (now : ℕ) (known : Known)
    → length (remember digest envelope now known) ≤ echo_limit
unfolding remember tidy
length-remember digest envelope now known = length-take_last echo_limit (
    filter (λ entry. not (ltb (entry.1 + life_ms) now))
      (set text_discrete (digest envelope) now known))

-- An envelope is taken for the client's own once for each time that it was remembered.
take_own_once :
    (digest : List ℕ → String) (envelope : List ℕ) (known : Known)
    → (take_own digest envelope (take_own digest envelope known).0).1 ≡ false
unfolding take_own
take_own_once digest envelope known =
    ground (arith, get-delete_self text_discrete (digest envelope) known)
