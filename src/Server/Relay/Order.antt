-- ===== src/Server/Relay/Order.antt =====
-- Claims of epochs one after the other (server/src/group.ts, `claimEpoch`).
use mekamb_chat.Common.{
  ℕ, zero, suc, ◌+◌, ◌≤◌, ◌<◌, ◌≡◌, ◌⊎◌, inl, inr, Bool-cases, refl, sym, subst, true, false, List,
  [], ◌∷◌, arith, ◌==◌, if◌then◌else◌, length,
}
use mekamb_chat.Server.Relay.{Relay, Claim, epoch, claim_epoch}

-- Claims one after the other, as the object serves them.
unfoldable pub serve : Relay → List ℕ → Relay
serve r [] = r
serve r (e ∷ es) = serve (claim_epoch r e).0 es

unfoldable pub answers : Relay → List ℕ → List Claim
answers r [] = []
answers r (e ∷ es) = (claim_epoch r e).1 ∷ answers (claim_epoch r e).0 es

-- The epochs that were granted, in order.
abbrev pub granted : List Claim → List ℕ
granted [] = []
granted (c ∷ cs) = if c.accepted then c.epoch ∷ granted cs else granted cs

abbrev pub range_from : ℕ → ℕ → List ℕ
range_from n zero = []
range_from n (suc k) = n ∷ range_from (suc n) k

claim_epoch_epoch :
    (r : Relay) (e : ℕ)
    → epoch (claim_epoch r e).0 ≡ (if epoch r == e then suc (epoch r) else epoch r)
unfolding claim_epoch
claim_epoch_epoch r e = ground arith

-- The expectations that were granted, in order.
abbrev pub granted_for : List ℕ → List Claim → List ℕ
granted_for [] cs = []
granted_for (e ∷ es) [] = []
granted_for (e ∷ es) (c ∷ cs) = if c.accepted then e ∷ granted_for es cs else granted_for es cs

-- The first list is within the second, in its order, with others between.
abbrev pub IsWithin : List ℕ → List ℕ → Type 0
IsWithin [] es = Unit
IsWithin (x ∷ xs) [] = ⊥
IsWithin (x ∷ xs) (e ∷ es) = ((x ≡ e) × IsWithin xs es) ⊎ IsWithin (x ∷ xs) es

IsWithin-weaken : (xs es : List ℕ) (e : ℕ) → IsWithin xs es → IsWithin xs (e ∷ es)
IsWithin-weaken [] es e h = tt
IsWithin-weaken (x ∷ xs) es e h = inr h

IsWithin-tail : (x : ℕ) (xs es : List ℕ) → IsWithin (x ∷ xs) es → IsWithin xs es
IsWithin-tail x xs [] h = absurd h
IsWithin-tail x xs (e ∷ es) (inl (same, h)) = IsWithin-weaken xs es e h
IsWithin-tail x xs (e ∷ es) (inr h) = IsWithin-weaken xs es e (IsWithin-tail x xs es h)

counted :
    (r : Relay) (es : List ℕ)
    → (granted (answers r es) ≡ range_from (suc (epoch r)) (length (granted (answers r es))))
      × (epoch (serve r es) ≡ epoch r + length (granted (answers r es)))
unfolding answers serve claim_epoch
counted r [] = (refl, omega arith)
counted r (e ∷ es) = ground (arith, counted (claim_epoch r e).0 es)

granted_for-answers :
    (r : Relay) (es : List ℕ)
    → granted_for es (answers r es) ≡ range_from (epoch r) (length (granted (answers r es)))
unfolding answers claim_epoch
granted_for-answers r [] = refl
granted_for-answers r (e ∷ es) = ground (arith, granted_for-answers (claim_epoch r e).0 es)

-- The chains of expectations that are within the claims are granted.
most_granted :
    (r : Relay) (es : List ℕ) (m : ℕ)
    → IsWithin (range_from (epoch r) m) es
    → m ≤ length (granted (answers r es))
unfolding answers claim_epoch
most_granted r es zero h = omega arith
most_granted r [] (suc m) h = absurd h
most_granted r (e ∷ es) (suc m) h = elim (Bool-cases (epoch r == e)) [
  | inl taken ↦
      let later : IsWithin (range_from (suc (epoch r)) m) es = elim h [
        | inl (same, within) ↦ within
        | inr within ↦ IsWithin-tail (epoch r) (range_from (suc (epoch r)) m) es within
      ] in
      let next : epoch (claim_epoch r e).0 ≡ suc (epoch r) = ground arith in
      let took : (claim_epoch r e).1.accepted ≡ true = ground arith in
      rw took (omega (arith, most_granted (claim_epoch r e).0 es m (rw next later)))
  | inr passed ↦
      let later : IsWithin (range_from (epoch r) (suc m)) es = elim h [
        | inl (same, within) ↦ absurd (ground arith)
        | inr within ↦ within
      ] in
      let kept : epoch (claim_epoch r e).0 ≡ epoch r = ground arith in
      let left : (claim_epoch r e).1.accepted ≡ false = ground arith in
      rw left (
        most_granted (claim_epoch r e).0 es (suc m)
          (subst (λ n. IsWithin (range_from n (suc m)) es) (sym kept) later))
]

-- Whatever epochs the clients expect, and however many ask at once: the claims that are granted are
-- those of the present epoch and the ones after it, each once, in order and with no gap, each is
-- answered by the next epoch, and the object ends at the last of these. And no right claim is turned
-- away: where claims of the present epoch and the ones after it, `m` of them, come in their order
-- with any others between, at least `m` are granted.
pub granted-answers :
    (r : Relay) (es : List ℕ) (m : ℕ)
    → IsWithin (range_from (epoch r) m) es
    → let k = length (granted (answers r es)) in
      (granted_for es (answers r es) ≡ range_from (epoch r) k)
      × (granted (answers r es) ≡ range_from (suc (epoch r)) k)
      × (epoch (serve r es) ≡ epoch r + k)
      × (m ≤ k)
granted-answers r es m h =
    let (ordered, last) = counted r es in
    (granted_for-answers r es, ordered, last, most_granted r es m h)

epoch-serve-le : (r : Relay) (es : List ℕ) → epoch r ≤ epoch (serve r es)
epoch-serve-le r es = omega (arith, (counted r es).1)

-- An epoch is granted once: after a claim is granted, the same expectation is refused for ever, with
-- a higher epoch in the answer, whatever is served between.
pub claim_epoch_once :
    (r : Relay) (e : ℕ) (es : List ℕ)
    → (claim_epoch r e).1.accepted ≡ true
    → let later = (claim_epoch (serve (claim_epoch r e).0 es) e).1 in
      (later.accepted ≡ false) × (e < later.epoch)
unfolding claim_epoch
claim_epoch_once r e es h = ground (arith, epoch-serve-le (claim_epoch r e).0 es)
