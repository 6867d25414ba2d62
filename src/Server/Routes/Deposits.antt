-- ===== src/Server/Routes/Deposits.antt =====
-- Who may leave an envelope (server/src/index.ts, POST /inbox/:userId).
use mekamb_chat.Common.{
  ℕ, ◌≤◌, ◌<◌, ◌≡◌, refl, String, Bool, true, false, Option, none, some, List, ltb, ◌==◌, length,
  arith, Option-cases, inl, inr, any,
}
use mekamb_chat.Server.Auth.State.{truthy}
use mekamb_chat.Server.Inbox.{Socket, Delivery, max_envelope_bytes}
use mekamb_chat.Server.Tokens.{Spent, Redeemed, bytes_eqb, to_hex, redeem, insert_or_ignore}
use mekamb_chat.Server.Routes.{
  Backend, Crypto, deposited, split_dots, two_parts, spend, deliver_spent, deposit_with,
  deposit_checked, deposit_route,
}

module _ (x : Crypto) where
  -- A delivery token that counts: it has two parts, the server's key made it, and no row of the spent
  -- ones has its seed.
  pub record Pays (header : String) (s : Backend) : Type 0 where
    pub seed : List ℕ
    pub unblinded : List ℕ
    pub parts : String × String
    pub two : two_parts (split_dots header) ≡ some parts
    pub seed_lem : x.from_base64 parts.0 ≡ some seed
    pub unblinded_lem : x.from_base64 parts.1 ≡ some unblinded
    pub valid : x.verify_delivery seed unblinded ≡ some true
    pub new : any (λ r. bytes_eqb r.seed (to_hex seed)) s.spent ≡ false

  -- What it takes for a deposit.
  abbrev pub Paid : Bool → Option String → Backend → Type 0
  Paid required none s = required ≡ false
  Paid required (some header) s = Pays header s

  redeem_ok :
      (rows : List Spent) (a b : List ℕ) (now : ℕ)
      → (redeem x.verify_delivery rows a b now).1 ≡ Redeemed.ok
      → (x.verify_delivery a b ≡ some true) × (any (λ r. bytes_eqb r.seed (to_hex a)) rows ≡ false)
  unfolding redeem insert_or_ignore
  redeem_ok rows a b now h = elim (Option-cases (x.verify_delivery a b)) [
    | inl e ↦ absurd (ground arith)
    | inr (true, e) ↦ (e, ground arith)
    | inr (false, e) ↦ absurd (ground arith)
  ]

  spend_ok :
      (a b : String) (now : ℕ) (s : Backend)
      → (spend x a b now s).1 ≡ some Redeemed.ok
      → (u v : List ℕ) × (x.from_base64 a ≡ some u)
        × (x.from_base64 b ≡ some v)
        × ((redeem x.verify_delivery s.spent u v now).1 ≡ Redeemed.ok)
  unfolding spend
  spend_ok a b now s h = elim (Option-cases (x.from_base64 a)) [
    | inl e ↦ absurd (ground arith)
    | inr (u, e) ↦ elim (Option-cases (x.from_base64 b)) [
      | inl e' ↦ absurd (ground arith)
      | inr (v, e') ↦ (u, v, e, e', ground arith)
    ]
  ]

  deliver_spent_ok :
      (user : String) (ws : List Socket) (envelope : List ℕ) (now : ℕ)
      (r : Backend × Option Redeemed) (d : Option Delivery)
      → (deliver_spent x user ws envelope now r).1 ≡ deposited d
      → r.1 ≡ some Redeemed.ok
  unfolding deliver_spent
  deliver_spent_ok user ws envelope now (s, none) d h = absurd (cc h)
  deliver_spent_ok user ws envelope now (s, some Redeemed.ok) d h = refl
  deliver_spent_ok user ws envelope now (s, some Redeemed.invalid) d h = absurd (cc h)
  deliver_spent_ok user ws envelope now (s, some Redeemed.spent) d h = absurd (cc h)

  with_header :
      (user : String) (ws : List Socket) (envelope : List ℕ) (header : String) (now : ℕ)
      (s : Backend) (d : Option Delivery)
      → (deposit_with x user ws envelope header now s).1 ≡ deposited d
      → Pays header s
  unfolding deposit_with
  with_header user ws envelope header now s d h =
      elim (Option-cases (two_parts (split_dots header))) [
        | inl e ↦ absurd (ground arith)
        | inr ((a, b), e) ↦
            let paid : (spend x a b now s).1 ≡ some Redeemed.ok =
              deliver_spent_ok user ws envelope now (spend x a b now s) d (ground arith) in
            let (u, v, eu, ev, ok) = spend_ok a b now s paid in
            let sound = redeem_ok s.spent u v now ok in
            record {
              seed = u;
              unblinded = v;
              parts = (a, b);
              two = e;
              seed_lem = eu;
              unblinded_lem = ev;
              valid = sound.0;
              new = sound.1;
            }
      ]

  checked-Paid :
      (required : Bool) (user : String) (ws : List Socket) (envelope : List ℕ)
      (header : Option String) (now : ℕ) (s : Backend) (d : Option Delivery)
      → (deposit_checked x required user ws envelope header now s).1 ≡ deposited d
      → Paid required header s
  unfolding deposit_checked
  checked-Paid required user ws envelope (some header) now s d h =
      with_header user ws envelope header now s d h
  checked-Paid true user ws envelope none now s d h = absurd (cc h)
  checked-Paid false user ws envelope none now s d h = refl

  -- An envelope is taken in only if it is neither empty nor larger than the limit, and for a delivery
  -- token that the server's key made and that was not spent before; without a token, only where none
  -- is required.
  pub deposit_route_sound :
      (required : Bool) (user : String) (ws : List Socket) (envelope : List ℕ)
      (header : Option String) (now : ℕ) (s : Backend) (d : Option Delivery)
      → (deposit_route x required user ws envelope header now s).1 ≡ deposited d
      → (0 < length envelope)
        × (length envelope ≤ max_envelope_bytes)
        × Paid required (truthy header) s
  unfolding deposit_route
  deposit_route_sound required user ws envelope header now s d h =
      let inside : (length envelope == 0) ≡ false = ground arith in
      let fits : ltb max_envelope_bytes (length envelope) ≡ false = ground arith in
      (
        ground arith,
        ground arith,
        checked-Paid required user ws envelope (truthy header) now s d (ground arith),
      )
