-- ===== src/Web/Messenger/Traces.antt =====
-- Histories of the messenger (web/src/lib/messenger.ts): its operations one after another, each at a
-- time, whether they succeed or throw.
use mekamb_chat.Common.{ℕ, String, List, [], ◌∷◌}
use mekamb_chat.Web.Messenger.{Account, Content, Platform, World, Outcome, done, thrown, Act}
use mekamb_chat.Web.Messenger.Ensures.{IsTidy, After, Ensures}
use mekamb_chat.Web.Messenger.Commits.{
  add_member, start_conversation, add_own_device, remove_device,
}
use mekamb_chat.Web.Messenger.Sending.{send_content, send_receipt}
use mekamb_chat.Web.Messenger.Receiving.{handle_envelope}
use mekamb_chat.Web.Messenger.TidySteps.{send_content-Ensures, send_receipt-Ensures}
use mekamb_chat.Web.Messenger.SavedFirst.{
  add_member-Ensures, start_conversation-Ensures, add_own_device-Ensures, remove_device-Ensures,
  handle_envelope-Ensures,
}

-- The operations, but for `opuscGrupe`.
pub data Operation : Type 0 where
  starts : String → Operation
  adds : List ℕ → String → Operation
  adds_own : List ℕ → String → Operation
  removes : String → List (List ℕ) → Operation
  sends : List ℕ → Content → Operation
  acknowledges : List ℕ → String → List (List ℕ) → Operation
  handles : List ℕ → Operation

module _ {C N : Type 0} (p : Platform C N) (me : Account) where
  unfoldable pub perform : ℕ → Operation → World C N → World C N
  perform now (starts username) w = (start_conversation p me now username w).1
  perform now (adds group username) w = (add_member p me now group username w).1
  perform now (adds_own group device) w = (add_own_device p me now group device w).1
  perform now (removes device groups) w = (remove_device p me now device groups w).1
  perform now (sends group content) w = (send_content p now group content w).1
  perform now (acknowledges group kind ids) w = (send_receipt p now group kind ids w).1
  perform now (handles bytes) w = (handle_envelope p me now bytes w).1

  unfoldable pub run : List (ℕ × Operation) → World C N → World C N
  unfolding perform
  run [] w = w
  run ((now, o) ∷ os) w = run os (perform now o w)

  IsTidy-After : {A : Type 0} (r : Outcome A) (w : World C N) → After IsTidy r w → IsTidy w.journal
  IsTidy-After (done a) w h = h
  IsTidy-After (thrown e) w h = h

  by_ensures :
      {A : Type 0} (m : Act C N A) (w : World C N)
      → Ensures IsTidy m IsTidy
      → IsTidy w.journal
      → IsTidy (m w).1.journal
  by_ensures m w e h = IsTidy-After (m w).0 (m w).1 (e.at w h)

  perform-IsTidy :
      (now : ℕ) (o : Operation) (w : World C N)
      → IsTidy w.journal
      → IsTidy (perform now o w).journal
  unfolding perform
  perform-IsTidy now (starts u) w h = by_ensures _ w (start_conversation-Ensures p me now u) h
  perform-IsTidy now (adds g u) w h = by_ensures _ w (add_member-Ensures p me now g u) h
  perform-IsTidy now (adds_own g d) w h = by_ensures _ w (add_own_device-Ensures p me now g d) h
  perform-IsTidy now (removes d gs) w h = by_ensures _ w (remove_device-Ensures p me now d gs) h
  perform-IsTidy now (sends g c) w h = by_ensures _ w (send_content-Ensures p now g c) h
  perform-IsTidy now (acknowledges g k ids) w h =
      by_ensures _ w (send_receipt-Ensures p now g k ids) h
  perform-IsTidy now (handles b) w h = by_ensures _ w (handle_envelope-Ensures p me now b) h

  -- Whatever operations are made, leaving a group apart, and whatever the core and the network answer:
  -- no envelope leaves while the core's state is changed and not saved, and a commit is merged only in
  -- the next call of the core after the relay granted an epoch to its group.
  pub run-IsTidy :
      (os : List (ℕ × Operation)) (w : World C N) → IsTidy w.journal → IsTidy (run os w).journal
  unfolding run
  run-IsTidy [] w h = h
  run-IsTidy ((now, o) ∷ os) w h = run-IsTidy os (perform now o w) (perform-IsTidy now o w h)
