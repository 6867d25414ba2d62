-- ===== src/Protocol/Claims.antt =====
-- What a claim over the line does to the epoch of its group (server/src/index.ts, POST
-- /groups/:groupId/commit, and server/src/group.ts).
use mekamb_chat.Common.{
  ℕ, suc, ◌≤◌, ◌≡◌, refl, String, true, false, some, text_discrete, arith, ◌⊎◌, inl, inr,
  Bool-cases, ◌==◌,
}
use mekamb_chat.Common.Keyed.{get-set_self}
use mekamb_chat.Server.Auth.State.{TokenPayload}
use mekamb_chat.Server.Relay.{Relay, epoch, claim_epoch}
use mekamb_chat.Server.Routes.{Backend, Crypto, claimed, relay_of, commit_route}
use mekamb_chat.Web.Messenger.{ClaimAnswer, answered, status, lost}
use mekamb_chat.Protocol.Epochs.{Fate, arrives, request_lost, answer_lost, read_answer, send_claim}

relay_of-commit_route :
    (x : Crypto) (payload : TokenPayload) (id : String) (e : ℕ) (s : Backend)
    → relay_of id (commit_route x id (some e) payload s).0 ≡ (claim_epoch (relay_of id s) e).0
unfolding commit_route relay_of
relay_of-commit_route x payload id e s =
    rw (get-set_self text_discrete id (claim_epoch (relay_of id s) e).0 s.relays)

commit_route_answer :
    (x : Crypto) (payload : TokenPayload) (id : String) (e : ℕ) (s : Backend)
    → (commit_route x id (some e) payload s).1 ≡ claimed (claim_epoch (relay_of id s) e).1
unfolding commit_route relay_of
commit_route_answer x payload id e s = refl

-- Of the relay: a refusal changes nothing, and a grant is of the present epoch.
claim_epoch_cases :
    (r : Relay) (e : ℕ)
    → (((claim_epoch r e).1.accepted ≡ false) × (epoch (claim_epoch r e).0 ≡ epoch r))
      ⊎ (((claim_epoch r e).1.accepted ≡ true)
          × (epoch r ≡ e)
          × (epoch (claim_epoch r e).0 ≡ suc e))
unfolding claim_epoch
claim_epoch_cases r e = elim (Bool-cases (epoch r == e)) [
  | inl h ↦ inr (ground arith, ground arith, ground arith)
  | inr h ↦ inl (ground arith, ground arith)
]

abbrev pub Outcomes : ℕ → ℕ → ℕ → ClaimAnswer → Type 0
Outcomes e before after (answered true) = (before ≡ e) × (after ≡ suc e)
Outcomes e before after (answered false) = before ≤ after
Outcomes e before after (status code) = before ≤ after
Outcomes e before after lost = before ≤ after

module _ (x : Crypto) (payload : TokenPayload) (id : String) (e : ℕ) (s : Backend) where
  abbrev pub before : ℕ
  before = epoch (relay_of id s)

  abbrev after : ℕ
  after = epoch (relay_of id (commit_route x id (some e) payload s).0)

  commit_route_epoch :
      ((read_answer (commit_route x id (some e) payload s).1 ≡ status 409) × (after ≡ before))
      ⊎ ((read_answer (commit_route x id (some e) payload s).1 ≡ answered true)
          × (before ≡ e)
          × (after ≡ suc e))
  commit_route_epoch =
      rw (commit_route_answer x payload id e s, relay_of-commit_route x payload id e s)
        (elim (claim_epoch_cases (relay_of id s) e) [
          | inl (no_claim, kept) ↦ inl (rw no_claim, kept)
          | inr (taken, now_at, next) ↦ inr (rw taken, now_at, next)
        ])

  -- What a claim may do to the epoch of its group: it takes the next one if it asks for the present
  -- one, and the client hears of it only then.
  pub send_claim_epoch :
      (f : Fate)
      → let r = send_claim x payload id e s f in Outcomes e before (epoch (relay_of id r.0)) r.1
  unfolding send_claim
  send_claim_epoch arrives = elim commit_route_epoch [
    | inl (a, kept) ↦ rw a (omega arith)
    | inr (a, now_at, next) ↦ rw a (now_at, next)
  ]
  send_claim_epoch request_lost = omega arith
  send_claim_epoch answer_lost = elim commit_route_epoch [
    | inl (a, kept) ↦ omega arith
    | inr (a, now_at, next) ↦ omega arith
  ]
