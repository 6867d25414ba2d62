-- ===== src/Protocol/NoFork.antt =====
-- No two commits of a group are merged for one epoch, whoever asks and whatever is lost on the way
-- (web/src/lib/messenger.ts, server/src/index.ts, server/src/group.ts).
use mekamb_chat.Common.{
  ℕ, suc, ◌≤◌, ◌≡◌, ◌≢◌, refl, ap, ◌∙◌, String, true, false, Option, none, some, List, [], ◌∷◌,
  ◌++◌, arith, ◌⊎◌, inl, inr,
}
use mekamb_chat.Server.Auth.State.{TokenPayload}
use mekamb_chat.Server.Routes.{Crypto}
use mekamb_chat.Web.Refusals.{race as lost_race, refusal}
use mekamb_chat.Web.Messenger.{
  Account, Pending, ClaimAnswer, answered, status, lost, Platform, changed, granted, confirmed,
  discarded, World, Outcome, done, thrown, Act, or_throw, pure, raise, continue, ◌>>=◌, ◌>>◌, catch,
  write, change, ask, request, persist,
}
use mekamb_chat.Web.Messenger.Commits.{
  abandon, give_up, settle, claim_epoch as claim, merge_commit, send_commit, approve_and_send,
}
use mekamb_chat.Protocol.Epochs.{
  Line, next_fate, line_claim, epoch_on, merges, times, Attempt, world_of, after_attempt, race,
  IsRising, OverLine,
}
use mekamb_chat.Protocol.Claims.{Outcomes, send_claim_epoch}
use mekamb_chat.Protocol.Quiet.{view, abandon-Quiet, send_commit-Quiet, continue-Quiet}

abbrev IsThrown : {A : Type 0} → Outcome A → Type 0
IsThrown (done a) = ⊥
IsThrown (thrown e) = Unit

continue-IsThrown :
    {C N A B : Type 0} (r : Outcome A) (f : A → Act C N B) (w : World C N)
    → IsThrown r
    → IsThrown (continue r f w).0 × ((continue r f w).1 ≡ w)
continue-IsThrown (done a) f w h = absurd h
continue-IsThrown (thrown e) f w h = (tt, refl)

raise-IsThrown :
    {C N A : Type 0} (B : Type 0) (r : Outcome A) (e : String) (w : World C N)
    → IsThrown (continue r (λ _. raise {A = B} e) w).0
unfolding raise
raise-IsThrown B (done a) e w = tt
raise-IsThrown B (thrown m) e w = tt

module _ {C : Type 0} (x : Crypto) (payload : TokenPayload) (p : Platform C Line)
    (over : OverLine x payload p) (group : List ℕ) where
  abbrev seen : World C Line → ℕ × ℕ
  seen w = view x payload p over group w

  -- Nothing was merged, or one commit for the epoch `e` that the group was in, by a core at `o`.
  abbrev Fine : Option ℕ → ℕ → World C Line → Type 0
  Fine o e w =
      let (count, at) = seen w in
      ((count ≡ 0) × (e ≤ at)) ⊎ ((count ≡ 1) × (o ≡ some e) × (at ≡ suc e))

  fine_unmerged :
      (o : Option ℕ) (e at : ℕ) (w : World C Line) → seen w ≡ (0, at) → e ≤ at → Fine o e w
  fine_unmerged o e at w h le = inl (ap (λ v. v.0) h, omega (arith, ap {A = ℕ × ℕ} (λ v. v.1) h))

  fine_merged :
      (o : Option ℕ) (e : ℕ) (w : World C Line) → o ≡ some e → seen w ≡ (1, suc e) → Fine o e w
  fine_merged o e w q h = inr (ap (λ v. v.0) h, q, ap (λ v. v.1) h)

  module _ (me : Account) (now : ℕ) (pending : Pending) (username : String) where
    -- The merging of the commit and the sending, once the epoch `e` is granted.
    after_confirm :
        (e : ℕ) (o : Option (Unit {0})) (w : World C Line)
        → seen w ≡ (0, suc e)
        → let r = continue (or_throw o) (λ _. write (confirmed group) >> persist) w in
          (IsThrown r.0 × (seen r.1 ≡ (0, suc e))) ⊎ (seen r.1 ≡ (1, suc e))
    unfolding write persist ◌>>=◌
    after_confirm e none w h = inl (tt, h)
    after_confirm e (some u) w h = inr (ap (λ v. (suc v.0, v.1)) h)

    finish :
        (known : Option ℕ) (e : ℕ) (w : World C Line)
        → known ≡ some e
        → seen w ≡ (0, suc e)
        → Fine known e
            ((merge_commit p me now group >>= λ _. send_commit p me now group pending username) w).1
    unfolding ◌>>=◌ merge_commit change
    finish known e w q h =
        let (c, o) = p.confirm_commit group w.client in
        let w' : World C Line = record w { client = c; journal = changed ∷ w.journal } in
        let r = continue (or_throw o) (λ _. write (confirmed group) >> persist) w' in
        let send = λ (u : Unit {0}). send_commit p me now group pending username in
        elim (after_confirm e o w' h) [
          | inl (t, same) ↦
              fine_unmerged known e (suc e) (continue r.0 send r.1).1
                (ap seen (continue-IsThrown r.0 send r.1 t).1 ∙ same) (omega arith)
          | inr same ↦ fine_merged known e (continue r.0 send r.1).1 q (
              continue-Quiet x payload p over group r.0 send r.1
                (λ u. send_commit-Quiet x payload p over group me now pending username)
              ∙ same)
        ]

    abandon-IsThrown :
        (reason : String) (w : World C Line) → IsThrown (abandon p me now group reason w).0
    unfolding abandon ◌>>=◌
    abandon-IsThrown reason w =
        let r =
          catch (change (p.discard_commit group) >> (write (discarded group) >> persist))
            (λ _. pure tt) w in
        raise-IsThrown (Unit {0}) r.0 reason r.1

    -- An answer other than a grant ends the change, with nothing merged.
    abbrev Ends : Act C Line (Unit {0}) → World C Line → Type 0
    Ends m w = IsThrown (m w).0 × (seen (m w).1 ≡ seen w)

    abandon-Ends : (reason : String) (w : World C Line) → Ends (abandon p me now group reason) w
    abandon-Ends reason w =
        (abandon-IsThrown reason w, (abandon-Quiet x payload p over group me now reason).at w)

    give_up-Ends : (o : Option String) (w : World C Line) → Ends (give_up p me now group o) w
    unfolding give_up raise
    give_up-Ends none w = (tt, refl)
    give_up-Ends (some reason) w = abandon-Ends reason w

    settle-Ends :
        (a : ClaimAnswer) (e : ℕ) (w : World C Line)
        → a ≢ answered true
        → Ends (settle p me now group e a) w
    unfolding settle raise
    settle-Ends (answered true) e w h = absurd (h refl)
    settle-Ends (answered false) e w h = abandon-Ends lost_race w
    settle-Ends (status code) e w h = give_up-Ends (refusal code) w
    settle-Ends lost e w h = (tt, refl)

    abbrev rest : Unit {0} → Act C Line (Unit {0})
    rest u = merge_commit p me now group >>= λ _. send_commit p me now group pending username

    ended :
        (m : Act C Line (Unit {0})) (known : Option ℕ) (e at : ℕ) (w : World C Line)
        → seen w ≡ (0, at)
        → e ≤ at
        → Ends m w
        → Fine known e (continue (m w).0 rest (m w).1).1
    ended m known e at w h le (t, same) =
        fine_unmerged known e at (continue (m w).0 rest (m w).1).1
          (ap seen (continue-IsThrown (m w).0 rest (m w).1 t).1 ∙ same ∙ h) le

    -- The core is at the epoch `e'` that is claimed, the server at `e` before and at `at` after.
    settle_fine :
        (a : ClaimAnswer) (e' e at : ℕ) (w : World C Line)
        → seen w ≡ (0, at)
        → Outcomes e' e at a
        → let r = settle p me now group e' a w in Fine (some e') e (continue r.0 rest r.1).1
    settle_fine (answered true) e' e at w h (now_at, next) =
        unfold settle write in
        rw now_at (
          finish (some e') e' (record w { journal = granted group e' ∷ w.journal }) refl
            (ap (λ v. (v.0, v.1)) h ∙ ap (λ n. (0, n)) next))
    settle_fine (answered false) e' e at w h le =
        ended (settle p me now group e' (answered false)) (some e') e at w h le
          (settle-Ends (answered false) e' w (λ q. absurd (cc q)))
    settle_fine (status code) e' e at w h le =
        ended (settle p me now group e' (status code)) (some e') e at w h le
          (settle-Ends (status code) e' w (λ q. cc q))
    settle_fine lost e' e at w h le =
        ended (settle p me now group e' lost) (some e') e at w h le
          (settle-Ends lost e' w (λ q. cc q))

    claim_line :
        (e' : ℕ) (n : Line)
        → let (n', a) = p.claim (p.relay_id group) e' n in
          Outcomes e' (epoch_on (p.relay_id group) n) (epoch_on (p.relay_id group) n') a
    unfolding line_claim
    claim_line e' n =
        rw (over.claims (p.relay_id group) e' n)
          (send_claim_epoch x payload (p.relay_id group) e' n.backend (next_fate n.fates).0)

    -- From the answer of the core on, what its epoch is.
    asked_fine :
        (o : Option ℕ) (w : World C Line)
        → merges w.journal ≡ 0
        → let r =
            continue
              (or_throw o)
              (λ e'. request (p.claim (p.relay_id group) e') >>= λ a. settle p me now group e' a)
              w in
          Fine o (epoch_on (p.relay_id group) w.net) (continue r.0 rest r.1).1
    unfolding ◌>>=◌ request
    asked_fine none w h = inl (h, omega arith)
    asked_fine (some e') w h =
        let (n, a) = p.claim (p.relay_id group) e' w.net in
        let id = p.relay_id group in
        settle_fine a e' (epoch_on id w.net) (epoch_on id n) (record w { net = n })
          (ap (λ l. (l, epoch_on id n)) h) (claim_line e' w.net)

    approve_fine :
        (w : World C Line)
        → merges w.journal ≡ 0
        → Fine
            (p.epoch group w.client)
            (epoch_on (p.relay_id group) w.net)
            (approve_and_send p me now group pending username w).1
    unfolding approve_and_send claim ask ◌>>=◌
    approve_fine w h = asked_fine (p.epoch group w.client) w h

  IsRising-mono :
      (low low' : ℕ) (es : List (Option ℕ)) → low ≤ low' → IsRising low' es → IsRising low es
  IsRising-mono low low' [] h r = tt
  IsRising-mono low low' (none ∷ es) h r = r
  IsRising-mono low low' (some e ∷ es) h r = (omega arith, r.1)

  fine-IsRising :
      (o : Option ℕ) (e : ℕ) (w : World C Line) (later : List (Option ℕ))
      → Fine o e w
      → IsRising (epoch_on (p.relay_id group) w.net) later
      → IsRising e (times (merges w.journal) o ++ later)
  fine-IsRising o e w later (inl (none_merged, le)) r =
      rw none_merged (IsRising-mono _ _ later le r)
  fine-IsRising o e w later (inr (one, known, next)) r =
      rw (one, known) (omega arith, rw (← next) r)

  -- No two commits are merged for one epoch: whichever members try to change a group, one after
  -- another, in whatever state their cores are, and whichever requests and answers are lost. For each
  -- commit that is merged, the core that merges it was in a known epoch, and these epochs rise, one
  -- above the other, from the server's present one on. The claims go to the route of the server, and
  -- the deposits leave its relays alone.
  pub race-IsRising :
      (n : Line) (attempts : List (Attempt C))
      → IsRising (epoch_on (p.relay_id group) n) (race p group n attempts)
  unfolding race after_attempt
  race-IsRising n [] = tt
  race-IsRising n (a ∷ later) =
      let w = after_attempt p group a n in
      fine-IsRising (p.epoch group a.client) (epoch_on (p.relay_id group) n) w
        (race p group w.net later)
        (approve_fine a.me a.now a.pending a.username (world_of p group a n) refl)
        (race-IsRising w.net later)
