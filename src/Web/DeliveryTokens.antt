-- ===== src/Web/DeliveryTokens.antt =====
-- The client's stock of delivery tokens (web/src/lib/tokeny.ts): what is stored under the two keys of
-- the browser's storage, the taking of a token and the refill.
use mekamb_chat.Common.{
  ℕ, ◌+◌, String, append_text, Bool, true, false, not, ◌&&◌, Option, none, some, List, [], ◌∷◌,
  ◌++◌, ltb, if◌then◌else◌, text_eqb, length, get_or_else,
}
pub mod Stock

pub record Token : Type 0 where
  pub seed : String
  pub unblinded : String

-- What the server gives for one blinded value.
pub record Issued : Type 0 where
  pub evaluated : String
  pub challenge : String
  pub response : String

-- One blinded value with what undoes the blinding.
pub record Trial : Type 0 where
  pub seed : String
  pub blinder : String
  pub blinded : String

-- The two entries of the storage; `none` for an entry that is missing or no list.
pub record Storage : Type 0 where
  pub stock : Option (List Token)
  pub pinned_key : Option String

-- `ZAPAS_DOCELOWY`
abbrev pub target_stock : ℕ
target_stock = 50

-- `PROG_DOBRANIA`
abbrev pub refill_threshold : ℕ
refill_threshold = 10

-- `wczytaj`
unfoldable pub load : Storage → List Token
load s = get_or_else s.stock []

-- `zapisz`; where `fits` is false the storage refuses and nothing changes.
unfoldable pub save : Bool → List Token → Storage → Storage
save fits tokens s = if fits then record s { stock = some tokens } else s

-- The first of the stock, and the rest that is written back.
abbrev pub take_first : Bool → List Token → Storage → Storage × Option Token
unfolding save
take_first fits [] s = (s, none)
take_first fits (t ∷ ts) s = (save fits ts s, some t)

-- `wezToken`
unfoldable pub take_token : Bool → Storage → Storage × Option Token
unfolding load take_first
take_token fits s = take_first fits (load s) s

-- `naglowekTokenu`
unfoldable pub token_header : Token → String
token_header t = append_text t.seed (append_text "." t.unblinded)

-- `if (przypiety && …)`: an empty text counts as none.
abbrev pub pinned : Option String → Option String
pinned none = none
pinned (some k) = if text_eqb k "" then none else some k

-- `if (nowe.length > 0) zapisz(…)`
abbrev pub add_tokens : Bool → List Token → Storage → Storage
unfolding save load
add_tokens fits [] s = s
add_tokens fits (t ∷ ts) s = save fits (load s ++ t ∷ ts) s

-- The core's unblinding, which checks the server's proof under the key; `none` is an exception.
module _ (unblind : Trial → Issued → String → Option Token) where
  -- `tokens.forEach`: an answer with no trial, or whose proof fails, is passed over.
  unfoldable pub unblinded : String → List Issued → List Trial → List Token
  unblinded key [] trials = []
  unblinded key (i ∷ is) [] = []
  unblinded key (i ∷ is) (t ∷ ts) =
      let rest = unblinded key is ts in
      elim (unblind t i key) [ none ↦ rest | some token ↦ token ∷ rest ]

  -- The key is the pinned one: the tokens of the server's answer, `none` where the request failed.
  unfoldable pub issue : Bool → String → List Trial → Option (List Issued) → Storage → Storage
  unfolding unblinded add_tokens
  issue fits key trials none s = s
  issue fits key trials (some issued) s = add_tokens fits (unblinded key issued trials) s

  -- `uzupelnij`: `key` and `issued` are the answers of the two requests. Where the storage refuses the
  -- key, the exception ends the refill.
  unfoldable pub refill :
      Bool → Option String → List Trial → Option (List Issued) → Storage → Storage
  unfolding load issue
  refill fits key trials issued s = if ltb refill_threshold (length (load s)) then s else elim key [
    | none ↦ s
    | some k ↦ elim (pinned s.pinned_key) [
      | some old ↦ if text_eqb old k then issue fits k trials issued s else s
      | none ↦ if fits then issue fits k trials issued (record s { pinned_key = some k }) else s
    ]
  ]
