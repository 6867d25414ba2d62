-- ===== src/Web/Pairing.antt =====
-- The bringing in of a new device (web/src/lib/parowanie.ts): the invitation that is drawn as a QR code
-- and the walk over the conversations. Base64, the escaping of addresses and the making of parameters
-- from an address are the browser's.
use mekamb_chat.Common.{
  ℕ, suc, ◌+◌, ◌-◌, ◌*◌, ◌/◌, ◌%◌, ◌≤◌, ◌≡◌, refl, String, Bool, true, false, not, ◌&&◌, Option,
  none, some, List, [], ◌∷◌, ◌++◌, map, length, if◌then◌else◌, ◌==◌, leb,
}
use mekamb_chat.Common.Arrays.{replicate}
use mekamb_chat.Server.Tokens.{bytes_eqb}
pub mod Progress
pub mod Invitation

-- Texts are lists of characters. `params` reads the parameters of an address.
pub record Browser : Type 0 where
  pub btoa : List ℕ → List ℕ
  pub atob : List ℕ → Option (List ℕ)
  pub encode_component : List ℕ → List ℕ
  pub param : List ℕ → ℕ → Option (List ℕ)
  pub trim : List ℕ → List ℕ

-- `mekamb://parowanie?`
abbrev pub prefix : List ℕ
prefix =
    109 ∷ 101 ∷ 107 ∷ 97 ∷ 109 ∷ 98 ∷ 58 ∷ 47 ∷ 47 ∷ 112 ∷ 97 ∷ 114 ∷ 111 ∷ 119 ∷ 97 ∷ 110 ∷ 105
    ∷ 101 ∷ 63 ∷ []

-- `replace(/\+/g, "-").replace(/\//g, "_")`
abbrev pub to_url : ℕ → ℕ
to_url c = if c == 43 then 45 else if c == 47 then 95 else c

-- `replace(/-/g, "+").replace(/_/g, "/")`
abbrev pub from_url : ℕ → ℕ
from_url c = if c == 45 then 43 else if c == 95 then 47 else c

-- `replace(/=+$/, "")`
unfoldable pub strip_end : List ℕ → List ℕ
strip_end [] = []
strip_end (c ∷ cs) = elim (strip_end cs) [
  | [] ↦ if c == 61 then [] else c ∷ []
  | d ∷ ds ↦ c ∷ d ∷ ds
]

-- `padEnd(Math.ceil(n / 4) * 4, "=")`
unfoldable pub pad_end : List ℕ → List ℕ
pad_end t = t ++ replicate ((length t + 3) / 4 * 4 - length t) 61

-- What follows the prefix, where the text starts with it.
unfoldable pub after_prefix : List ℕ → List ℕ → Option (List ℕ)
after_prefix [] t = some t
after_prefix (p ∷ ps) [] = none
after_prefix (p ∷ ps) (c ∷ t) = elim (p == c) [ true ↦ after_prefix ps t | false ↦ none ]

pub record InvitationData : Type 0 where
  pub device_id : List ℕ
  pub public_key : List ℕ

-- `if (!deviceId || …)`: an empty text counts as none.
abbrev pub given : Option (List ℕ) → Option (List ℕ)
given none = none
given (some []) = none
given (some (c ∷ cs)) = some (c ∷ cs)

module _ (b : Browser) where
  -- `doBase64url`
  unfoldable pub to_base64url : List ℕ → List ℕ
  to_base64url bytes = strip_end (map to_url (b.btoa bytes))

  -- `zBase64url`
  unfoldable pub from_base64url : List ℕ → Option (List ℕ)
  from_base64url t = b.atob (pad_end (map from_url t))

  -- `zbudujZaproszenie`
  unfoldable pub build_invitation : InvitationData → List ℕ
  unfolding to_base64url
  build_invitation i =
      prefix
      ++ ((100 ∷ 61 ∷ [])
          ++ (b.encode_component i.device_id
              ++ ((38 ∷ 107 ∷ 61 ∷ []) ++ to_base64url i.public_key)))

  abbrev pub with_key : List ℕ → Option (List ℕ) → Option InvitationData
  with_key device none = none
  with_key device (some key) =
      if length key == 32 then some (record { device_id = device; public_key = key }) else none

  abbrev pub with_params : Option (List ℕ) → Option (List ℕ) → Option InvitationData
  unfolding from_base64url
  with_params none k = none
  with_params (some d) none = none
  with_params (some d) (some k) = with_key d (from_base64url k)

  -- `odczytajZaproszenie`
  unfoldable pub read_invitation : List ℕ → Option InvitationData
  unfolding after_prefix with_params
  read_invitation t = elim (after_prefix prefix (b.trim t)) [
    | none ↦ none
    | some rest ↦ with_params (given (b.param rest 100)) (given (b.param rest 107))
  ]

-- `PostepParowania`
pub record Step : Type 0 where
  pub done : ℕ
  pub total : ℕ
  pub skipped : List (List ℕ × String)

-- One conversation: `none` is that the device was brought in, a text the exception.
unfoldable pub note_one : List ℕ → Option String → Step → Step
note_one group none s = record s { done = s.done + 1 }
note_one group (some reason) s = record s { skipped = s.skipped ++ (group, reason) ∷ [] }

-- `wprowadzDoRozmow` over the state `W` of the messenger: the outcome, and what was reported.
unfoldable pub bring_into :
    {W : Type 0}
    → (List ℕ → W → W × Option String)
    → List (List ℕ)
    → Step
    → List Step
    → W
    → W × Step × List Step
unfolding note_one
bring_into add [] s reports w = (w, s, reports)
bring_into add (g ∷ gs) s reports w =
    let (w', failed) = add g w in
    let s' = note_one g failed s in bring_into add gs s' (reports ++ s' ∷ []) w'

unfoldable pub bring_into_all :
    {W : Type 0} → (List ℕ → W → W × Option String) → List (List ℕ) → W → W × Step × List Step
unfolding bring_into
bring_into_all add gs w =
    bring_into add gs (record { done = 0; total = length gs; skipped = [] }) [] w
