-- ===== src/Web/Envelopes.antt =====
-- What becomes of an envelope that could not be processed (web/src/lib/koperty.ts).
use mekamb_chat.Common.{
  ℕ, ◌+◌, String, Option, none, some, List, [], ◌∷◌, leb, if◌then◌else◌, get_or_else, text_discrete,
}
use mekamb_chat.Common.Keyed.{get, set, delete}
pub mod Attempts

abbrev pub attempts_before_discard : ℕ
attempts_before_discard = 3

-- `LicznikProb`
abbrev pub Counter : Type 0
Counter = List (String × ℕ)

-- `Decyzja`
pub data Decision : Type 0 where
  retry discard : Decision

-- `poNiepowodzeniu`
unfoldable pub after_failure : Counter → String → Counter × Decision
after_failure counter id =
    let attempts = get_or_else (get text_discrete id counter) 0 + 1 in
    if leb attempts_before_discard attempts
    then (delete text_discrete id counter, discard)
    else (set text_discrete id attempts counter, retry)

-- `poSukcesie`
unfoldable pub after_success : Counter → String → Counter
after_success counter id = delete text_discrete id counter
