-- ===== src/Web/Messenger/SavedFirst.antt =====
-- The core's state is saved before what stems from it is sent, and an epoch is granted before its
-- commit is merged (web/src/lib/messenger.ts): for each operation but `opuscGrupe`.
use mekamb_chat.Common.{
  ℕ, String, Bool, true, false, Option, none, some, List, [], ◌∷◌, if◌then◌else◌,
}
use mekamb_chat.Web.Messenger.{
  Account, EnvelopeKind, application, commit, welcome, Pending, Arrival, message, proposal_queued,
  other, Platform, Act,
}
use mekamb_chat.Web.Messenger.Ensures.{
  IsTidy, IsClean, Ensures, Ensures-pure, Ensures-raise, Ensures-ask, Ensures-request,
  Ensures-change, Ensures-persist, Ensures-bind, Ensures-catch, Ensures-weaken,
}
use mekamb_chat.Web.Messenger.Commits.{
  fetch_packages, bring_in, bring_in_some, add_devices, add_member, start_conversation,
  add_own_device, approve_some, remove_from_groups, remove_device, close_proposals,
}
use mekamb_chat.Web.Messenger.Receiving.{
  is_own, join, after_commit, take_commit, take_message, open_matched, open_envelope,
  handle_envelope,
}
use mekamb_chat.Web.Messenger.TidySteps.{same, clean-IsTidy, approve_and_send-Ensures}

module _ {C N : Type 0} (p : Platform C N) (me : Account) (now : ℕ) where
  fetch_packages-Ensures :
      (devices : List String) → Ensures IsTidy (fetch_packages p me now devices) IsTidy
  unfolding fetch_packages
  fetch_packages-Ensures [] = Ensures-pure [] (same IsTidy)
  fetch_packages-Ensures (d ∷ ds) =
      Ensures-bind _ _ (Ensures-request _ (same IsTidy))
        λ found. Ensures-bind _ _ (fetch_packages-Ensures ds) λ rest. Ensures-pure _ (same IsTidy)

  bring_in-Ensures :
      (group : List ℕ) (packages : List (List ℕ)) (username : String)
      → Ensures IsTidy (bring_in p me now group packages username) IsTidy
  unfolding bring_in
  bring_in-Ensures group packages username =
      Ensures-bind _ _ (Ensures-change _ (λ l h. (h, h)))
        λ pending. approve_and_send-Ensures p me now group pending username

  bring_in_some-Ensures :
      (reason : String) (group : List ℕ) (username : String) (packages : List (List ℕ))
      → Ensures IsTidy (bring_in_some p me now reason group username packages) IsTidy
  unfolding bring_in_some
  bring_in_some-Ensures reason group username [] = Ensures-raise reason (same IsTidy)
  bring_in_some-Ensures reason group username (x ∷ xs) = bring_in-Ensures group (x ∷ xs) username

  add_devices-Ensures :
      (group : List ℕ) (username : String) (devices : Option (List String))
      → Ensures IsTidy (add_devices p me now group username devices) IsTidy
  unfolding add_devices
  add_devices-Ensures group username none = Ensures-raise _ (same IsTidy)
  add_devices-Ensures group username (some []) = Ensures-raise _ (same IsTidy)
  add_devices-Ensures group username (some (d ∷ ds)) =
      Ensures-bind _ _ (fetch_packages-Ensures (d ∷ ds))
        λ packages. bring_in_some-Ensures _ group username packages

  pub add_member-Ensures :
      (group : List ℕ) (username : String)
      → Ensures IsTidy (add_member p me now group username) IsTidy
  unfolding add_member
  add_member-Ensures group username =
      Ensures-bind _ _ (Ensures-request _ (same IsTidy))
        λ devices. add_devices-Ensures group username devices

  pub start_conversation-Ensures :
      (username : String) → Ensures IsTidy (start_conversation p me now username) IsTidy
  unfolding start_conversation
  start_conversation-Ensures username = Ensures-bind _ _ (Ensures-change _ (λ l h. (h, h))) λ group.
      Ensures-bind _ _ (add_member-Ensures group username) λ _. Ensures-pure group (same IsTidy)

  if-Ensures :
      {A : Type 0} (b : Bool) (m n : Act C N A)
      → Ensures IsTidy m IsTidy
      → Ensures IsTidy n IsTidy
      → Ensures IsTidy (if b then m else n) IsTidy
  if-Ensures true m n h k = h
  if-Ensures false m n h k = k

  pub add_own_device-Ensures :
      (group : List ℕ) (device : String)
      → Ensures IsTidy (add_own_device p me now group device) IsTidy
  unfolding add_own_device
  add_own_device-Ensures group device =
      Ensures-bind _ _ (Ensures-ask _ (same IsTidy) (same IsTidy)) λ entries.
        if-Ensures _ _ _ (Ensures-pure tt (same IsTidy)) (
          Ensures-bind _ _ (fetch_packages-Ensures (device ∷ []))
            λ packages. bring_in_some-Ensures _ group me.user_id packages)

  approve_some-Ensures :
      (group : List ℕ) (pending : Option Pending)
      → Ensures IsTidy (approve_some p me now group pending) IsTidy
  unfolding approve_some
  approve_some-Ensures group none = Ensures-pure tt (same IsTidy)
  approve_some-Ensures group (some pending) =
      approve_and_send-Ensures p me now group pending me.user_id

  remove_from_groups-Ensures :
      (device : String) (groups : List (List ℕ))
      → Ensures IsTidy (remove_from_groups p me now device groups) IsTidy
  unfolding remove_from_groups
  remove_from_groups-Ensures device [] = Ensures-pure tt (same IsTidy)
  remove_from_groups-Ensures device (g ∷ gs) =
      Ensures-bind _ _ (Ensures-change _ (λ l h. (h, h))) λ pending.
        Ensures-bind _ _ (approve_some-Ensures g pending) λ _. remove_from_groups-Ensures device gs

  pub remove_device-Ensures :
      (device : String) (groups : List (List ℕ))
      → Ensures IsTidy (remove_device p me now device groups) IsTidy
  unfolding remove_device
  remove_device-Ensures device groups =
      Ensures-bind _ _ (remove_from_groups-Ensures device groups) λ _.
        Ensures-bind _ _ (Ensures-request _ (same IsTidy)) λ gone.
          if-Ensures gone _ _ (Ensures-pure tt (same IsTidy)) (Ensures-raise _ (same IsTidy))

  close_proposals-Ensures :
      (group : List ℕ) → Ensures IsTidy (close_proposals p me now group) IsTidy
  unfolding close_proposals
  close_proposals-Ensures group =
      Ensures-bind _ _ (Ensures-change _ (λ l h. (h, h)))
        λ pending. approve_and_send-Ensures p me now group pending me.user_id

  join-Ensures : (payload : List ℕ) → Ensures IsTidy (join p me now payload) IsTidy
  unfolding join
  join-Ensures payload =
      Ensures-bind _ _
        (Ensures-catch {Q = IsTidy} _ _
          (Ensures-bind _ _ (Ensures-change _ (λ l h. (h, h))) λ _. Ensures-pure true (same IsTidy))
          (λ _. Ensures-pure false (same IsTidy)))
        λ joined.
          if-Ensures joined _ _
            (Ensures-bind _ _ Ensures-persist λ _. Ensures-pure none clean-IsTidy)
            (Ensures-pure none (same IsTidy))

  after_commit-Ensures :
      (group : List ℕ) (a : Arrival) → Ensures IsClean (after_commit p me now group a) IsTidy
  unfolding after_commit
  after_commit-Ensures group proposal_queued =
      Ensures-bind _ _ (Ensures-weaken clean-IsTidy (same IsTidy) (close_proposals-Ensures group))
        λ _. Ensures-pure none (same IsTidy)
  after_commit-Ensures group other = Ensures-pure none clean-IsTidy
  after_commit-Ensures group (message m) = Ensures-pure none clean-IsTidy

  take_commit-Ensures :
      (group payload : List ℕ) → Ensures IsTidy (take_commit p me now group payload) IsTidy
  unfolding take_commit
  take_commit-Ensures group payload =
      Ensures-bind _ _ (Ensures-change _ (λ l h. (h, h)))
        λ arrival. Ensures-bind _ _ Ensures-persist λ _. after_commit-Ensures group arrival

  take_message-Ensures :
      (group payload : List ℕ) → Ensures IsTidy (take_message p me now group payload) IsTidy
  unfolding take_message
  take_message-Ensures group payload =
      Ensures-bind _ _ (Ensures-change _ (λ l h. (h, h)))
        λ arrival. Ensures-bind _ _ Ensures-persist λ _. Ensures-pure _ clean-IsTidy

  open_matched-Ensures :
      (kind : EnvelopeKind) (payload : List ℕ) (group : Option (List ℕ))
      → Ensures IsTidy (open_matched p me now kind payload group) IsTidy
  unfolding open_matched
  open_matched-Ensures kind payload none = Ensures-pure none (same IsTidy)
  open_matched-Ensures application payload (some g) = take_message-Ensures g payload
  open_matched-Ensures commit payload (some g) = take_commit-Ensures g payload
  open_matched-Ensures welcome payload (some g) = take_message-Ensures g payload

  open_envelope-Ensures :
      (bytes : List ℕ) (o : Option (EnvelopeKind × List ℕ))
      → Ensures IsTidy (open_envelope p me now bytes o) IsTidy
  unfolding open_envelope
  open_envelope-Ensures bytes none = Ensures-raise _ (same IsTidy)
  open_envelope-Ensures bytes (some (welcome, payload)) = join-Ensures payload
  open_envelope-Ensures bytes (some (commit, payload)) =
      Ensures-bind _ _ (Ensures-ask _ (same IsTidy) (same IsTidy))
        λ g. open_matched-Ensures commit payload g
  open_envelope-Ensures bytes (some (application, payload)) =
      Ensures-bind _ _ (Ensures-ask _ (same IsTidy) (same IsTidy))
        λ g. open_matched-Ensures application payload g

  pub handle_envelope-Ensures :
      (bytes : List ℕ) → Ensures IsTidy (handle_envelope p me now bytes) IsTidy
  unfolding handle_envelope is_own
  handle_envelope-Ensures bytes =
      Ensures-bind {Q = IsTidy} _ _ (record { at = λ w h. h })
        λ own. if-Ensures own _ _ (Ensures-pure none (same IsTidy)) (open_envelope-Ensures bytes _)
