-- ===== src/Protocol/MailboxFrames.antt =====
-- The mailbox socket from end to end: the server's frames (server/src/inbox.ts) as the client reads
-- them (web/src/Czat.tsx), and the client's acknowledgements (web/src/lib/polaczenie.ts) as the
-- server reads them.
use mekamb_chat.Common.{
  ℕ, zero, suc, ◌+◌, ◌-◌, ◌*◌, ◌/◌, ◌%◌, ◌^◌, ◌<◌, ◌≡◌, refl, ap, ◌∙◌, true, Bool-cases, inl, inr,
  Option, some, List, [], ◌∷◌, arith, ◌==◌,
}
use mekamb_chat.Server.Inbox.Wire.{
  big_endian, with_id, ack, parse_command, is_digit, digits, digits_from,
}
use mekamb_chat.Web.Frame.{split_frame, decimal_onto, decimal, ack_text}

-- The client reads the id and the envelope that the server sent, for every id of 64 bits.
pub split_frame-with_id :
    (id : ℕ) (envelope : List ℕ)
    → id < 2 ^ 64
    → split_frame (with_id id envelope) ≡ some (id, envelope)
unfolding split_frame with_id big_endian
split_frame-with_id id envelope h =
    ap {B = Option (ℕ × List ℕ)} (λ (x : ℕ). some (x, envelope)) (omega arith)

digit_step :
    (a d : ℕ) (rest : List ℕ)
    → d < 10
    → digits_from a ((48 + d) ∷ rest) ≡ digits_from (a * 10 + d) rest
digit_step a d rest h =
    let e : is_digit (48 + d) ≡ true = ground arith in
    let back : 48 + d - 48 ≡ d = omega arith in rw (e, back)

digits_from-decimal :
    (fuel n : ℕ) (rest : List ℕ)
    → n < fuel
    → digits_from 0 (decimal_onto fuel n rest) ≡ digits_from n rest
unfolding decimal_onto
digits_from-decimal zero n rest h = absurd (omega arith)
digits_from-decimal (suc fuel) n rest h = elim (Bool-cases (n / 10 == 0)) [
  | inl e ↦
      rw e (digit_step 0 (n % 10) rest (omega arith) ∙ ap (λ m. digits_from m rest) (ground arith))
  | inr e ↦ rw e (
      digits_from-decimal fuel (n / 10) _ (ground arith)
      ∙ digit_step (n / 10) (n % 10) rest (omega arith)
      ∙ ap (λ m. digits_from m rest) (omega arith))
]

digits-decimal :
    (fuel n : ℕ) (rest : List ℕ)
    → n < fuel
    → digits (decimal_onto fuel n rest) ≡ digits_from 0 (decimal_onto fuel n rest)
unfolding decimal_onto
digits-decimal zero n rest h = absurd (omega arith)
digits-decimal (suc fuel) n rest h = elim (Bool-cases (n / 10 == 0)) [
  | inl e ↦ rw e refl
  | inr e ↦ rw e (digits-decimal fuel (n / 10) _ (ground arith))
]

-- The server reads from the client's acknowledgement the number that the client put into it.
pub parse_command-ack_text : (id : ℕ) → parse_command (ack_text id) ≡ ack id
unfolding parse_command ack_text decimal
parse_command-ack_text id =
    rw (
      digits-decimal (suc id) id [] (omega arith),
      digits_from-decimal (suc id) id [] (omega arith),
    )
