-- ===== src/Server/Auth/TwoFactor/Waiting.antt =====
-- The sessions that wait for a code, against the log of the requests (server/src/auth.ts).
use mekamb_chat.Common.{
  ℕ, ◌≡◌, refl, subst, String, Bool, true, not, ◌||◌, some, Bool-cases, inl, inr, List, [], ◌∷◌,
  ◌++◌, arith, text_eqb→eq, all, find, filter, all-filter,
}
use mekamb_chat.Server.Auth.State.{Session, awaiting_totp, stage_eqb, is_open}
use mekamb_chat.Server.Auth.History.{Entry, finished}

-- Every session that waits for a code stands behind a successful second round in the log.
pub record Proven (log : List Entry) (ys : List Session) : Type 0 where
  pub proven : all (λ y. not (stage_eqb y.stage awaiting_totp) || finished y.id log) ys ≡ true

pub log_all :
    (e : Entry) (log : List Entry) (ys : List Session)
    → all (λ y. not (stage_eqb y.stage awaiting_totp) || finished y.id log) ys ≡ true
    → all (λ y. not (stage_eqb y.stage awaiting_totp) || finished y.id (e ∷ log)) ys ≡ true
log_all e log [] h = refl
log_all e log (y ∷ ys) h = ground (arith, log_all e log ys)

pub Proven-log :
    (e : Entry) (log : List Entry) (ys : List Session) → Proven log ys → Proven (e ∷ log) ys
Proven-log e log ys h = record { proven = log_all e log ys h.proven }

pub Proven-filter :
    (log : List Entry) (p : Session → Bool) (ys : List Session)
    → Proven log ys
    → Proven log (filter p ys)
Proven-filter log p ys h = record { proven = all-filter _ p ys h.proven }

pub append_all :
    (p : Session → Bool) (ys : List Session) (y : Session)
    → all p ys ≡ true
    → p y ≡ true
    → all p (ys ++ y ∷ []) ≡ true
append_all p [] y h k = ground arith
append_all p (z ∷ ys) y h k = ground (arith, append_all p ys y)

pub Proven-append :
    (log : List Entry) (ys : List Session) (y : Session)
    → Proven log ys
    → (not (stage_eqb y.stage awaiting_totp) || finished y.id log) ≡ true
    → Proven log (ys ++ y ∷ [])
Proven-append log ys y h k = record { proven = append_all _ ys y h.proven k }

pub Proven-found :
    (log : List Entry) (id : String) (now : ℕ) (ys : List Session) (y : Session)
    → all (λ y. not (stage_eqb y.stage awaiting_totp) || finished y.id log) ys ≡ true
    → find (is_open id awaiting_totp now) ys ≡ some y
    → finished id log ≡ true
Proven-found log id now [] y h k = cc
Proven-found log id now (z ∷ ys) y h k = elim (Bool-cases (is_open id awaiting_totp now z)) [
  | inl o ↦
      let same : z.id ≡ id = text_eqb→eq z.id id (ground arith) in
      let there : finished z.id log ≡ true = ground arith in
      subst (λ j. finished j log ≡ true) same there
  | inr o ↦ Proven-found log id now ys y (ground arith) (ground arith)
]
