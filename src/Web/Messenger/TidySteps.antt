-- ===== src/Web/Messenger/TidySteps.antt =====
-- The steps of sending and committing keep the journal tidy (web/src/lib/messenger.ts).
use mekamb_chat.Common.{
  ℕ, String, Bool, true, false, Option, none, some, List, [], ◌∷◌, if◌then◌else◌, refl,
}
use mekamb_chat.Web.Refusals.{race, refusal}
use mekamb_chat.Web.Messenger.{
  Account, Pending, ClaimAnswer, answered, status, lost, Content, Platform, Step, granted, World,
  changed, done, thrown, Act, pure, ◌>>◌,
}
use mekamb_chat.Web.Messenger.Ensures.{
  IsTidy, IsClean, IsReady, Merges, After, Ensures, Ensures-pure, Ensures-raise, Ensures-ask,
  Ensures-request, Ensures-change, Ensures-write, Ensures-persist, Ensures-bind, Ensures-catch,
  Ensures-weaken,
}
use mekamb_chat.Web.Messenger.Mailboxes.{
  member_user_ids, remember_own, post_one, post_all, leave_in, send_round,
}
use mekamb_chat.Web.Messenger.Commits.{
  abandon, give_up, settle, claim_epoch, send_welcome, merge_commit, send_commit, approve_and_send,
}
use mekamb_chat.Web.Messenger.Sending.{send_content, send_receipt}

pub same : (P : List Step → Type 0) (l : List Step) → P l → P l
same P l p = p

pub clean-IsTidy : (l : List Step) → IsClean l → IsTidy l
clean-IsTidy l h = h.1

if-After :
    {C N : Type 0} (b : Bool) (e : String) (w : World C N)
    → IsClean w.journal
    → After IsClean (if b then done tt else thrown e) w
if-After true e w h = h
if-After false e w h = h.1

module _ {C N : Type 0} (p : Platform C N) (now : ℕ) where
  post_all-IsClean :
      (users : List String) (envelope : List ℕ) (w : World C N)
      → IsClean w.journal
      → IsClean (post_all p now users envelope w).1.journal
  unfolding post_all post_one
  post_all-IsClean [] envelope w h = h
  post_all-IsClean (u ∷ us) envelope w h =
      post_all-IsClean us envelope (post_one p now u envelope w).1 (h.0, h)

  pub leave_in-Ensures :
      (users : List String) (envelope : List ℕ)
      → Ensures IsClean (leave_in p now users envelope) IsClean
  unfolding leave_in
  leave_in-Ensures users envelope = record {
    at = λ w h.
        if-After (post_all p now users envelope w).0 "nie udało się zostawić wiadomości w skrzynce"
          (post_all p now users envelope w).1 (post_all-IsClean users envelope w h);
  }

  pub remember_own-Ensures :
      {P : List Step → Type 0} (envelope : List ℕ) → Ensures P (remember_own p now envelope) P
  unfolding remember_own
  remember_own-Ensures envelope = record { at = λ w h. h }

  pub member_user_ids-Ensures :
      (group : List ℕ) → Ensures IsClean (member_user_ids p now group) IsClean
  unfolding member_user_ids
  member_user_ids-Ensures group = Ensures-ask _ (same IsClean) clean-IsTidy

  send_round-Ensures :
      (group envelope : List ℕ) → Ensures IsClean (send_round p now group envelope) IsClean
  unfolding send_round
  send_round-Ensures group envelope =
      Ensures-bind _ _ (remember_own-Ensures envelope) λ _.
        Ensures-bind _ _ (member_user_ids-Ensures group) λ users. leave_in-Ensures users envelope

  pub send_content-Ensures :
      (group : List ℕ) (content : Content)
      → Ensures IsTidy (send_content p now group content) IsTidy
  unfolding send_content
  send_content-Ensures group content = Ensures-bind _ _ (Ensures-change _ (λ l h. (h, h))) λ sealed.
      Ensures-bind _ _ Ensures-persist
        λ _. Ensures-bind _ _ (send_round-Ensures group _) λ _. Ensures-pure _ clean-IsTidy

  pub then_nothing :
      {A : Type 0} (m : Act C N A) → Ensures IsTidy m IsTidy → Ensures IsTidy (m >> pure tt) IsTidy
  then_nothing m h = Ensures-bind m _ h (λ _. Ensures-pure tt (same IsTidy))

  pub send_receipt-Ensures :
      (group : List ℕ) (kind : String) (ids : List (List ℕ))
      → Ensures IsTidy (send_receipt p now group kind ids) IsTidy
  unfolding send_receipt
  send_receipt-Ensures group kind [] = Ensures-pure tt (same IsTidy)
  send_receipt-Ensures group kind (id ∷ ids) = then_nothing _ (send_content-Ensures group _)

module _ {C N : Type 0} (p : Platform C N) (me : Account) (now : ℕ) where
  abandon-Ensures :
      (Q : List Step → Type 0) (group : List ℕ) (reason : String)
      → Ensures IsTidy (abandon p me now group reason) Q
  unfolding abandon
  abandon-Ensures Q group reason =
      Ensures-bind {Q = IsTidy} _ _
        (Ensures-catch _ _
          (Ensures-bind {Q = IsTidy} _ _ (Ensures-change _ (λ l h. (h, h))) λ _.
            Ensures-bind {Q = IsTidy} _ _ (Ensures-write _ (λ l h. h))
              λ _. Ensures-weaken (same IsTidy) clean-IsTidy Ensures-persist)
          (λ _. Ensures-pure tt (same IsTidy)))
        λ _. Ensures-raise reason (same IsTidy)

  give_up-Ensures :
      (group : List ℕ) (o : Option String)
      → Ensures IsTidy (give_up p me now group o) (IsReady group)
  unfolding give_up
  give_up-Ensures group none = Ensures-raise "status" (same IsTidy)
  give_up-Ensures group (some reason) = abandon-Ensures (IsReady group) group reason

  settle-Ensures :
      (group : List ℕ) (e : ℕ) (a : ClaimAnswer)
      → Ensures IsTidy (settle p me now group e a) (IsReady group)
  unfolding settle
  settle-Ensures group e (answered true) = Ensures-write _ (λ l h. (refl, h))
  settle-Ensures group e (answered false) = abandon-Ensures (IsReady group) group race
  settle-Ensures group e (status code) = give_up-Ensures group (refusal code)
  settle-Ensures group e lost = Ensures-raise "network" (same IsTidy)

  claim_epoch-Ensures :
      (group : List ℕ) → Ensures IsTidy (claim_epoch p me now group) (IsReady group)
  unfolding claim_epoch
  claim_epoch-Ensures group =
      Ensures-bind _ _ (Ensures-ask _ (same IsTidy) (same IsTidy))
        λ e. Ensures-bind _ _ (Ensures-request _ (same IsTidy)) λ a. settle-Ensures group e a

  ready-Merges :
      (group : List ℕ) (l : List Step) → IsReady group l → Merges group (changed ∷ l) × IsTidy l
  ready-Merges group (granted h n ∷ l) r = ((r.0, r.1), r.1)
  ready-Merges group (changed ∷ l) r = absurd r
  ready-Merges group _ r = absurd r

  merge_commit-Ensures :
      (group : List ℕ) → Ensures (IsReady group) (merge_commit p me now group) IsClean
  unfolding merge_commit
  merge_commit-Ensures group =
      Ensures-bind {Q = Merges group} _ _ (Ensures-change _ (ready-Merges group))
        λ _. Ensures-bind _ _ (Ensures-write _ (λ l h. h)) λ _. Ensures-persist

  send_welcome-Ensures :
      (group : List ℕ) (username : String) (payload : Option (List ℕ))
      → Ensures IsClean (send_welcome p me now group username payload) IsTidy
  unfolding send_welcome
  send_welcome-Ensures group username none = Ensures-pure tt clean-IsTidy
  send_welcome-Ensures group username (some payload) =
      Ensures-bind _ _ (remember_own-Ensures p now _)
        λ _. Ensures-weaken (same IsClean) clean-IsTidy (leave_in-Ensures p now _ _)

  send_commit-Ensures :
      (group : List ℕ) (pending : Pending) (username : String)
      → Ensures IsClean (send_commit p me now group pending username) IsTidy
  unfolding send_commit
  send_commit-Ensures group pending username = Ensures-bind _ _ (remember_own-Ensures p now _) λ _.
      Ensures-bind _ _ (member_user_ids-Ensures p now group) λ users.
        Ensures-bind _ _ (leave_in-Ensures p now _ _)
          λ _. send_welcome-Ensures group username pending.welcome

  pub approve_and_send-Ensures :
      (group : List ℕ) (pending : Pending) (username : String)
      → Ensures IsTidy (approve_and_send p me now group pending username) IsTidy
  unfolding approve_and_send
  approve_and_send-Ensures group pending username =
      Ensures-bind _ _ (claim_epoch-Ensures group) λ _.
        Ensures-bind _ _ (merge_commit-Ensures group)
          λ _. send_commit-Ensures group pending username
