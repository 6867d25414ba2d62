-- ===== src/Server/Tokens/Spending.antt =====
-- The spending of tokens over histories of calls (server/src/tokeny.ts).
use mekamb_chat.Common.{
  ℕ, ◌+◌, ◌≤◌, ◌≡◌, refl, Bool, true, false, not, ◌&&◌, Option, Option-cases, Bool-cases, inl, inr,
  List, [], ◌∷◌, ltb, any, arith, any-append,
}
use mekamb_chat.Server.Tokens.{
  Spent, Redeemed, ok, window_ms, bytes_eqb, to_hex, insert_or_ignore, redeem, clean_up,
}

bytes_eqb_refl : (xs : List ℕ) → bytes_eqb xs xs ≡ true
bytes_eqb_refl [] = refl
bytes_eqb_refl (x ∷ xs) = ground (arith, bytes_eqb_refl xs)

-- What reaches the table: a token at a time, or the cleaning of the scheduled job.
pub data Call : Type 0 where
  spends : List ℕ → List ℕ → ℕ → Call
  cleans : ℕ → Call

abbrev pub is_ok : Redeemed → Bool
is_ok ok = true
is_ok _ = false

-- Cleanings come before the window that starts at a time is over.
abbrev pub CleansBy : ℕ → List Call → Type 0
CleansBy deadline [] = Unit {0}
CleansBy deadline (spends seed unblinded now ∷ calls) = CleansBy deadline calls
CleansBy deadline (cleans now ∷ calls) = (now ≤ deadline) × CleansBy deadline calls

module _ (verify : List ℕ → List ℕ → Option Bool) where
  unfoldable pub call : Call → List Spent → List Spent
  call (spends seed unblinded now) rows = (redeem verify rows seed unblinded now).0
  call (cleans now) rows = clean_up now rows

  abbrev pub call_all : List Call → List Spent → List Spent
  call_all [] rows = rows
  call_all (c ∷ calls) rows = call_all calls (call c rows)

-- The trace of a seed that was spent at a time or later.
abbrev pub is_trace : List ℕ → ℕ → Spent → Bool
is_trace seed since r = bytes_eqb r.seed seed && not (ltb r.spent_at since)

any-redeem :
    (verify : List ℕ → List ℕ → Option Bool) (p : Spent → Bool) (rows : List Spent)
    (seed unblinded : List ℕ) (now : ℕ)
    → any p rows ≡ true
    → any p (redeem verify rows seed unblinded now).0 ≡ true
unfolding redeem insert_or_ignore
any-redeem verify p rows seed unblinded now h = elim (Option-cases (verify seed unblinded)) [
  | inl e ↦ rw (redeem, e) h
  | inr (false, e) ↦ rw (redeem, e) h
  | inr (true, e) ↦ elim (Bool-cases (any (λ r. bytes_eqb r.seed (to_hex seed)) rows)) [
    | inl there ↦ rw (redeem, e, there) h
    | inr new ↦
        rw (redeem, e, new)
          (rw (any-append p rows (record { seed = to_hex seed; spent_at = now } ∷ []), h) refl)
  ]
]

trace-clean_up :
    (seed : List ℕ) (since now : ℕ) (rows : List Spent)
    → now ≤ since + window_ms
    → any (is_trace seed since) rows ≡ true
    → any (is_trace seed since) (clean_up now rows) ≡ true
unfolding clean_up
trace-clean_up seed since now [] h k = cc
trace-clean_up seed since now (r ∷ rows) h k = ground (arith, trace-clean_up seed since now rows h)

trace_kept :
    (verify : List ℕ → List ℕ → Option Bool) (seed : List ℕ) (since : ℕ) (calls : List Call)
    (rows : List Spent)
    → CleansBy (since + window_ms) calls
    → any (is_trace seed since) rows ≡ true
    → any (is_trace seed since) (call_all verify calls rows) ≡ true
unfolding call
trace_kept verify seed since [] rows h k = k
trace_kept verify seed since (spends s u now ∷ calls) rows h k =
    trace_kept verify seed since calls _ h (any-redeem verify (is_trace seed since) rows s u now k)
trace_kept verify seed since (cleans now ∷ calls) rows h k =
    trace_kept verify seed since calls _ h.1 (trace-clean_up seed since now rows h.0 k)

trace_seed :
    (seed : List ℕ) (since : ℕ) (rows : List Spent)
    → any (is_trace seed since) rows ≡ true
    → any (λ r. bytes_eqb r.seed seed) rows ≡ true
trace_seed seed since [] h = cc
trace_seed seed since (r ∷ rows) h = ground (arith, trace_seed seed since rows)

traced :
    (verify : List ℕ → List ℕ → Option Bool) (rows : List Spent) (seed unblinded : List ℕ) (now : ℕ)
    → (redeem verify rows seed unblinded now).1 ≡ ok
    → any (is_trace (to_hex seed) now) (redeem verify rows seed unblinded now).0 ≡ true
unfolding redeem insert_or_ignore
traced verify rows seed unblinded now h = elim (Option-cases (verify seed unblinded)) [
  | inl e ↦ absurd (cc (rw (redeem, e) at h))
  | inr (false, e) ↦ absurd (cc (rw (redeem, e) at h))
  | inr (true, e) ↦ elim (Bool-cases (any (λ r. bytes_eqb r.seed (to_hex seed)) rows)) [
    | inl there ↦ absurd (cc (rw (redeem, e, there) at h))
    | inr new ↦
        rw (redeem, e, new)
          (rw
            (any-append (is_trace (to_hex seed) now) rows
              (record { seed = to_hex seed; spent_at = now } ∷ []))
            (ground (arith, bytes_eqb_refl (to_hex seed))))
  ]
]

refused_again :
    (verify : List ℕ → List ℕ → Option Bool) (rows : List Spent) (seed unblinded : List ℕ) (now : ℕ)
    → any (λ r. bytes_eqb r.seed (to_hex seed)) rows ≡ true
    → is_ok (redeem verify rows seed unblinded now).1 ≡ false
unfolding redeem insert_or_ignore
refused_again verify rows seed unblinded now h = elim (Option-cases (verify seed unblinded)) [
  | inl e ↦ rw (redeem, e) refl
  | inr (false, e) ↦ rw (redeem, e) refl
  | inr (true, e) ↦ rw (redeem, e, h) refl
]

-- A token is not accepted twice within thirty days: once a seed was accepted, no call accepts it,
-- whatever other tokens came between, if the job cleans only at times within the thirty days.
pub redeem_once :
    (verify : List ℕ → List ℕ → Option Bool) (rows : List Spent)
    (seed unblinded unblinded' : List ℕ) (now later : ℕ) (calls : List Call)
    → (redeem verify rows seed unblinded now).1 ≡ ok
    → CleansBy (now + window_ms) calls
    → is_ok
        (redeem verify
          (call_all verify calls (redeem verify rows seed unblinded now).0)
          seed
          unblinded'
          later).1
      ≡ false
redeem_once verify rows seed unblinded unblinded' now later calls h within =
    let t = (redeem verify rows seed unblinded now).0 in
    refused_again verify (call_all verify calls t) seed unblinded' later (
      trace_seed (to_hex seed) now (call_all verify calls t) (
        trace_kept verify (to_hex seed) now calls t within
          (traced verify rows seed unblinded now h)))
