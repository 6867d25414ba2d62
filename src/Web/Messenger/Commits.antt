-- ===== src/Web/Messenger/Commits.antt =====
-- Changes of a group (web/src/lib/messenger.ts, from `addMember` to `zatwierdzIRozeslij`).
use mekamb_chat.Common.{
  ℕ, String, append_text, true, false, not, ◌||◌, Option, none, some, List, [], ◌∷◌, filter,
  if◌then◌else◌, text_eqb, any,
}
use mekamb_chat.Web.Refusals.{race, refusal}
use mekamb_chat.Web.Messenger.{
  Account, commit, welcome, Pending, ClaimAnswer, answered, status, lost, Platform, Act, granted,
  confirmed, discarded, pure, raise, ◌>>=◌, ◌>>◌, catch, write, change, ask, request, persist,
}
use mekamb_chat.Web.Messenger.Mailboxes.{member_user_ids, remember_own, leave_in}
use mekamb_chat.Web.Messenger.Packing.{join_packages}

module _ {C N : Type 0} (p : Platform C N) (me : Account) (now : ℕ) where
  -- `porzucCommit`
  unfoldable pub abandon : List ℕ → String → Act C N (Unit {0})
  abandon group reason = do
    catch (do change (p.discard_commit group); write (discarded group); persist) (λ _. pure tt)
    raise reason

  -- Where it is not known whether the epoch was taken, the prepared commit stays.
  unfoldable pub give_up : List ℕ → Option String → Act C N (Unit {0})
  give_up group none = raise "status"
  give_up group (some reason) = abandon group reason

  -- What the answer to the claim leads to.
  unfoldable pub settle : List ℕ → ℕ → ClaimAnswer → Act C N (Unit {0})
  settle group e (answered true) = write (granted group e)
  settle group e (answered false) = abandon group race
  settle group e (status code) = give_up group (refusal code)
  settle group e lost = raise "network"

  -- `zajmijEpoke`
  unfoldable pub claim_epoch : List ℕ → Act C N (Unit {0})
  claim_epoch group = do
    e ← ask (p.epoch group)
    answer ← request (p.claim (p.relay_id group) e)
    settle group e answer

  -- The welcome goes to the mailbox of those who were added.
  unfoldable pub send_welcome : List ℕ → String → Option (List ℕ) → Act C N (Unit {0})
  send_welcome group username none = pure tt
  send_welcome group username (some payload) =
      let envelope = p.encode_envelope group welcome payload in
      remember_own p now envelope >> leave_in p now (username ∷ []) envelope

  -- The commit is merged and saved.
  unfoldable pub merge_commit : List ℕ → Act C N (Unit {0})
  merge_commit group = do change (p.confirm_commit group); write (confirmed group); persist

  -- The merged commit goes to the members; a person who was added gets the welcome instead.
  unfoldable pub send_commit : List ℕ → Pending → String → Act C N (Unit {0})
  send_commit group pending username =
      let envelope = p.encode_envelope group commit pending.commit in
      let own = text_eqb username me.user_id in
      do
        remember_own p now envelope
        users ← member_user_ids p now group
        leave_in p now (filter (λ u. own || not (text_eqb u username)) users) envelope
        send_welcome group username pending.welcome

  -- `zatwierdzIRozeslij`
  unfoldable pub approve_and_send : List ℕ → Pending → String → Act C N (Unit {0})
  approve_and_send group pending username = do
    claim_epoch group
    merge_commit group
    send_commit group pending username

  -- `pobierzPakiety`: a device without a package is passed over.
  unfoldable pub fetch_packages : List String → Act C N (List (List ℕ))
  fetch_packages [] = pure []
  fetch_packages (d ∷ ds) = do
    found ← request (p.claim_package d)
    rest ← fetch_packages ds
    pure (elim found [ none ↦ rest | some bytes ↦ bytes ∷ rest ])

  -- `wprowadzCzlonkow`
  unfoldable pub bring_in : List ℕ → List (List ℕ) → String → Act C N (Unit {0})
  bring_in group packages username = do
    pending ← change (p.add_members group (join_packages packages))
    approve_and_send group pending username

  unfoldable pub bring_in_some : String → List ℕ → String → List (List ℕ) → Act C N (Unit {0})
  bring_in_some reason group username [] = raise reason
  bring_in_some reason group username (x ∷ xs) = bring_in group (x ∷ xs) username

  unfoldable pub add_devices : List ℕ → String → Option (List String) → Act C N (Unit {0})
  add_devices group username none = raise "network"
  add_devices group username (some []) = raise "nie ma zarejestrowanych urządzeń"
  add_devices group username (some (d ∷ ds)) = do
    packages ← fetch_packages (d ∷ ds)
    bring_in_some "nie ma wolnych key packages" group username packages

  -- `addMember`
  unfoldable pub add_member : List ℕ → String → Act C N (Unit {0})
  add_member group username = do
    devices ← request (p.devices_of username)
    add_devices group username devices

  -- `startConversation`
  unfoldable pub start_conversation : String → Act C N (List ℕ)
  start_conversation username = do
    group ← change p.create_conversation
    add_member group username
    pure group

  abbrev pub identity : String → String
  identity device = append_text me.user_id (append_text ":" device)

  -- `dodajWlasneUrzadzenie`
  unfoldable pub add_own_device : List ℕ → String → Act C N (Unit {0})
  add_own_device group device = do
    entries ← ask (p.members group)
    if any (λ e. text_eqb e (identity device)) entries then pure tt else do
      packages ← fetch_packages (device ∷ [])
      bring_in_some "nowe urządzenie nie ma wolnych key packages" group me.user_id packages

  unfoldable pub approve_some : List ℕ → Option Pending → Act C N (Unit {0})
  approve_some group none = pure tt
  approve_some group (some pending) = approve_and_send group pending me.user_id

  -- The loop of `usunUrzadzenie`.
  unfoldable pub remove_from_groups : String → List (List ℕ) → Act C N (Unit {0})
  remove_from_groups device [] = pure tt
  remove_from_groups device (g ∷ gs) = do
    pending ← change (p.remove_device g (identity device))
    approve_some g pending
    remove_from_groups device gs

  -- `usunUrzadzenie`
  unfoldable pub remove_device : String → List (List ℕ) → Act C N (Unit {0})
  remove_device device groups = do
    remove_from_groups device groups
    gone ← request (p.remove_from_directory device)
    if gone then pure tt else raise "network"

  -- `opuscGrupe`
  unfoldable pub leave_group : List ℕ → Act C N (Unit {0})
  leave_group group = do
    users ← member_user_ids p now group
    envelope ← change (p.leave_conversation group)
    leave_in p now (filter (λ u. not (text_eqb u me.user_id)) users) envelope

  -- `zamknijPropozycje`
  unfoldable pub close_proposals : List ℕ → Act C N (Unit {0})
  close_proposals group = do
    pending ← change (p.commit_pending group)
    approve_and_send group pending me.user_id
