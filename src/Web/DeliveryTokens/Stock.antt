-- ===== src/Web/DeliveryTokens/Stock.antt =====
-- What a refill does to the stock and to the pinned key (web/src/lib/tokeny.ts, `uzupelnij`).
use mekamb_chat.Common.{
  ℕ, ◌≤◌, ◌≡◌, ◌≢◌, refl, String, Bool, true, false, Option, none, some, List, [], ◌∷◌, ◌++◌, ltb,
  text_eqb, text_eqb→eq, length, arith, All, sym, Option-cases, inl, inr, Bool-cases,
}
use mathlib.Core.List.{append-nil}
use mekamb_chat.Web.DeliveryTokens.{
  Token, Issued, Trial, Storage, load, save, unblinded, add_tokens, issue, pinned, refill,
}

module _ (unblind : Trial → Issued → String → Option Token) where
  -- A token that the core made with the proof of the key `k`.
  abbrev pub IsProven : String → Token → Type 0
  IsProven k t = (trial : Trial) × (i : Issued) × (unblind trial i k ≡ some t)

  unblinded-IsProven :
      (k : String) (issued : List Issued) (trials : List Trial)
      → All (IsProven k) (unblinded unblind k issued trials)
  unfolding unblinded
  unblinded-IsProven k [] trials = tt
  unblinded-IsProven k (i ∷ is) [] = tt
  unblinded-IsProven k (i ∷ is) (t ∷ ts) = elim (Option-cases (unblind t i k)) [
    | inl e ↦ rw (e, unblinded) (unblinded-IsProven k is ts)
    | inr (token, e) ↦ rw (e, unblinded) ((t, i, e), unblinded-IsProven k is ts)
  ]

  length-unblinded :
      (k : String) (issued : List Issued) (trials : List Trial)
      → length (unblinded unblind k issued trials) ≤ length trials
  unfolding unblinded
  length-unblinded k [] trials = omega arith
  length-unblinded k (i ∷ is) [] = omega arith
  length-unblinded k (i ∷ is) (t ∷ ts) = ground (arith, length-unblinded k is ts)

  -- What a refill may do where the key `k` is pinned: it adds proven tokens, at most `most` and only
  -- to a stock of ten or less, and leaves the key.
  pub record Refills (k : String) (most : ℕ) (before after : Storage) : Type 0 where
    pub more : List Token
    pub added : load after ≡ load before ++ more
    pub within : length more ≤ most
    pub proven : All (IsProven k) more
    pub needed : more ≢ [] → length (load before) ≤ 10
    pub same_key : after.pinned_key ≡ before.pinned_key

  nothing : (k : String) (most : ℕ) (s : Storage) → Refills k most s s
  nothing k most s = record {
    more = [];
    added = sym (append-nil (load s));
    within = omega arith;
    proven = tt;
    needed = λ h. absurd (h refl);
    same_key = refl;
  }

  add_tokens-Refills :
      (fits : Bool) (k : String) (most : ℕ) (ts : List Token) (s : Storage)
      → length (load s) ≤ 10
      → length ts ≤ most
      → All (IsProven k) ts
      → Refills k most s (add_tokens fits ts s)
  unfolding load save
  add_tokens-Refills fits k most [] s few h all = nothing k most s
  add_tokens-Refills true k most (t ∷ ts) s few h all = record {
    more = t ∷ ts;
    added = refl;
    within = h;
    proven = all;
    needed = λ _. few;
    same_key = refl;
  }
  add_tokens-Refills false k most (t ∷ ts) s few h all = nothing k most s

  issue-Refills :
      (fits : Bool) (k : String) (trials : List Trial) (issued : Option (List Issued)) (s : Storage)
      → length (load s) ≤ 10
      → Refills k (length trials) s (issue unblind fits k trials issued s)
  unfolding issue
  issue-Refills fits k trials none s few = nothing k (length trials) s
  issue-Refills fits k trials (some is) s few =
      add_tokens-Refills fits k (length trials) (unblinded unblind k is trials) s few
        (length-unblinded k is trials) (unblinded-IsProven k is trials)

  -- A refill trusts the pinned key alone: where one is pinned, whatever the server answers, the key
  -- stays, and what is added behind the old stock are tokens with a proof under that key, no more
  -- than were asked for, and none where more than ten are left.
  pub refill-Refills :
      (fits : Bool) (key : Option String) (trials : List Trial) (issued : Option (List Issued))
      (k : String) (s : Storage)
      → s.pinned_key ≡ some k
      → k ≢ ""
      → Refills k (length trials) s (refill unblind fits key trials issued s)
  unfolding refill
  refill-Refills fits none trials issued k s is_pinned given =
      elim (Bool-cases (ltb 10 (length (load s)))) [
        | inl e ↦ rw e (nothing k (length trials) s)
        | inr e ↦ rw e (nothing k (length trials) s)
      ]
  refill-Refills fits (some new) trials issued k s is_pinned given =
      elim (Bool-cases (ltb 10 (length (load s)))) [
        | inl e ↦ rw e (nothing k (length trials) s)
        | inr e ↦
            let few : length (load s) ≤ 10 = ground arith in
            let old : pinned s.pinned_key ≡ some k = ground arith in
            rw (e, old)
              (elim (Bool-cases (text_eqb k new)) [
                | inl same ↦
                    rw same
                      (rw (← text_eqb→eq k new same) (issue-Refills fits k trials issued s few))
                | inr other ↦ rw other (nothing k (length trials) s)
              ])
      ]
