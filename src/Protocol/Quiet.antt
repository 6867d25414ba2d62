-- ===== src/Protocol/Quiet.antt =====
-- The steps of the messenger that neither merge a commit nor touch the relays
-- (web/src/lib/messenger.ts).
use mekamb_chat.Common.{ℕ, ◌≡◌, refl, ◌∙◌, String, Option, none, some, List, [], ◌∷◌}
use mekamb_chat.Server.Auth.State.{TokenPayload}
use mekamb_chat.Server.Routes.{Crypto, relay_of}
use mekamb_chat.Web.DeliveryTokens.{take_token}
use mekamb_chat.Web.Messenger.{
  Account, Pending, Platform, discarded, World, Outcome, done, thrown, Act, pure, raise, continue,
  rescue, ◌>>=◌, catch, write, change, ask, persist,
}
use mekamb_chat.Web.Messenger.Mailboxes.{
  member_user_ids, remember_own, header_of, post_one, post_all, leave_in,
}
use mekamb_chat.Web.Messenger.Commits.{abandon, send_welcome, send_commit}
use mekamb_chat.Protocol.Epochs.{Line, epoch_on, merges, OverLine}

module _ {C : Type 0} (x : Crypto) (payload : TokenPayload) (p : Platform C Line)
    (over : OverLine x payload p) (group : List ℕ) where
  -- The number of merges, and the epoch of the group at the server.
  abbrev pub view : World C Line → ℕ × ℕ
  view w = (merges w.journal, epoch_on (p.relay_id group) w.net)

  module _ {A : Type 0} where
    pub record Quiet (m : Act C Line A) : Type 0 where
      pub at : (w : World C Line) → view (m w).1 ≡ view w

  module _ {A : Type 0} where
    pub Quiet-pure : (a : A) → Quiet (pure a)
    unfolding pure
    Quiet-pure a = record { at = λ w. refl }

    pub Quiet-raise : (e : String) → Quiet {A = A} (raise e)
    unfolding raise
    Quiet-raise e = record { at = λ w. refl }

    pub Quiet-change : (f : C → C × Option A) → Quiet (change f)
    unfolding change
    Quiet-change f = record { at = λ w. refl }

    pub Quiet-ask : (f : C → Option A) → Quiet (ask f)
    unfolding ask
    Quiet-ask f = record { at = λ w. refl }

    rescue-Quiet :
        (r : Outcome A) (f : String → Act C Line A) (w : World C Line)
        → ((e : String) → Quiet (f e))
        → view (rescue r f w).1 ≡ view w
    rescue-Quiet (done a) f w h = refl
    rescue-Quiet (thrown e) f w h = (h e).at w

    pub Quiet-catch :
        (m : Act C Line A) (f : String → Act C Line A)
        → Quiet m
        → ((e : String) → Quiet (f e))
        → Quiet (catch m f)
    unfolding catch
    Quiet-catch m f h k = record { at = λ w. rescue-Quiet (m w).0 f (m w).1 k ∙ h.at w }

  module _ {A B : Type 0} where
    pub continue-Quiet :
        (r : Outcome A) (f : A → Act C Line B) (w : World C Line)
        → ((a : A) → Quiet (f a))
        → view (continue r f w).1 ≡ view w
    continue-Quiet (done a) f w h = (h a).at w
    continue-Quiet (thrown e) f w h = refl

    pub Quiet-bind :
        (m : Act C Line A) (f : A → Act C Line B)
        → Quiet m
        → ((a : A) → Quiet (f a))
        → Quiet (m >>= f)
    unfolding ◌>>=◌
    Quiet-bind m f h k = record { at = λ w. continue-Quiet (m w).0 f (m w).1 k ∙ h.at w }

  pub Quiet-persist : Quiet persist
  unfolding persist
  Quiet-persist = record { at = λ w. refl }

  discarded-Quiet : Quiet (write (discarded group))
  unfolding write
  discarded-Quiet = record { at = λ w. refl }

  module _ (me : Account) (now : ℕ) where
    post_all_quiet :
        (users : List String) (envelope : List ℕ) (w : World C Line)
        → view (post_all p now users envelope w).1 ≡ view w
    unfolding post_all post_one relay_of
    post_all_quiet [] envelope w = refl
    post_all_quiet (u ∷ us) envelope w =
        let (storage, token) = take_token (p.fits w.storage) w.storage in
        rw (
          post_all_quiet us envelope (post_one p now u envelope w).1,
          over.posts u envelope (header_of p now token) w.net,
        )

    leave_in-Quiet :
        (users : List String) (envelope : List ℕ) → Quiet (leave_in p now users envelope)
    unfolding leave_in
    leave_in-Quiet users envelope = record { at = post_all_quiet users envelope }

    remember_own-Quiet : (envelope : List ℕ) → Quiet (remember_own p now envelope)
    unfolding remember_own
    remember_own-Quiet envelope = record { at = λ w. refl }

    pub abandon-Quiet : (reason : String) → Quiet (abandon p me now group reason)
    unfolding abandon
    abandon-Quiet reason =
        Quiet-bind _ _
          (Quiet-catch _ _
            (Quiet-bind _ _ (Quiet-change _) λ _. Quiet-bind _ _ discarded-Quiet λ _. Quiet-persist)
            (λ _. Quiet-pure tt))
          λ _. Quiet-raise reason

    send_welcome-Quiet :
        (username : String) (o : Option (List ℕ)) → Quiet (send_welcome p me now group username o)
    unfolding send_welcome
    send_welcome-Quiet username none = Quiet-pure tt
    send_welcome-Quiet username (some payload) =
        Quiet-bind _ _ (remember_own-Quiet _) λ _. leave_in-Quiet _ _

    pub send_commit-Quiet :
        (pending : Pending) (username : String)
        → Quiet (send_commit p me now group pending username)
    unfolding send_commit member_user_ids
    send_commit-Quiet pending username = Quiet-bind _ _ (remember_own-Quiet _) λ _.
        Quiet-bind _ _ (Quiet-ask _) λ users.
          Quiet-bind _ _ (leave_in-Quiet _ _) λ _. send_welcome-Quiet username pending.welcome
