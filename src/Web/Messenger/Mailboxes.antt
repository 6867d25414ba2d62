-- ===== src/Web/Messenger/Mailboxes.antt =====
-- Who gets an envelope, and the leaving of it (web/src/lib/messenger.ts, `memberUserIds`,
-- `zostawWSkrzynkach`, `rozeslij`).

use Prim.Native.Char.{code}
use mathlib.Core.Option
use mekamb_chat.Common.{
  ℕ, String, Bool, true, not, ◌&&◌, Option, none, some, List, [], ◌∷◌, map, filter, if◌then◌else◌,
  text_eqb, ◌==◌,
}
use mekamb_chat.Web.Echoes.{remember}
use mekamb_chat.Web.DeliveryTokens.{Token, take_token, token_header}
use mekamb_chat.Web.Messenger.{Platform, World, done, thrown, Act, posted, ◌>>=◌, ◌>>◌, ask}

-- `wpis.split(":")[0]`
unfoldable pub before_colon : String → String
before_colon String.[] = String.[]
before_colon (String.◌∷◌ c s) = if code c == b':' then String.[] else String.◌∷◌ c (before_colon s)

-- `[...new Set(l)]`: the first of each.
unfoldable pub unique : List String → List String
unique [] = []
unique (x ∷ xs) = x ∷ filter (λ y. not (text_eqb y x)) (unique xs)

module _ {C N : Type 0} (p : Platform C N) (now : ℕ) where
  -- `memberUserIds` and `skrzynkiRozmowy`
  unfoldable pub member_user_ids : List ℕ → Act C N (List String)
  member_user_ids group =
      ask (λ c. Option.map (λ entries. unique (map before_colon entries)) (p.members group c))

  -- `zapamietaj`
  unfoldable pub remember_own : List ℕ → Act C N (Unit {0})
  remember_own envelope w = (done tt, record w { known = remember p.digest envelope now w.known })

  abbrev pub header_of : Option Token → Option String
  unfolding token_header
  header_of none = none
  header_of (some t) = some (token_header t)

  -- `api.deposit` with the next token of the stock.
  unfoldable pub post_one : String → List ℕ → World C N → Bool × World C N
  post_one user envelope w =
      let (storage, token) = take_token (p.fits w.storage) w.storage in
      let (net, arrived) = p.post user envelope (header_of token) w.net in
      (
        arrived,
        record w { storage = storage; net = net; journal = posted user envelope ∷ w.journal },
      )

  -- `Promise.all`: every request is made, also where one fails.
  unfoldable pub post_all : List String → List ℕ → World C N → Bool × World C N
  post_all [] envelope w = (true, w)
  post_all (u ∷ us) envelope w =
      let (arrived, w') = post_one u envelope w in
      let (rest, w'') = post_all us envelope w' in (arrived && rest, w'')

  -- `zostawWSkrzynkach`
  unfoldable pub leave_in : List String → List ℕ → Act C N (Unit {0})
  leave_in users envelope w =
      let (arrived, w') = post_all users envelope w in
      (if arrived then done tt else thrown "nie udało się zostawić wiadomości w skrzynce", w')

  -- `rozeslij`
  unfoldable pub send_round : List ℕ → List ℕ → Act C N (Unit {0})
  send_round group envelope = do
    remember_own envelope
    users ← member_user_ids group
    leave_in users envelope
