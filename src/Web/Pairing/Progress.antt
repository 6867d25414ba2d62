-- ===== src/Web/Pairing/Progress.antt =====
-- The progress that is reported (web/src/lib/parowanie.ts, `wprowadzDoRozmow`).
use mekamb_chat.Common.{
  ℕ, suc, ◌+◌, ◌≡◌, refl, sym, subst, String, Option, none, some, List, [], ◌∷◌, ◌++◌, length,
  length-append, arith,
}
use mekamb_chat.Web.Pairing.{Step, note_one, bring_into, bring_into_all}

abbrev pub handled : Step → ℕ
handled s = s.done + length s.skipped

-- Reports that count up by one from `n`, with one and the same total.
abbrev pub CountsUp : ℕ → ℕ → List Step → Type 0
CountsUp total n [] = Unit
CountsUp total n (s ∷ ss) = (handled s ≡ suc n) × (s.total ≡ total) × CountsUp total (suc n) ss

handled-note_one :
    (g : List ℕ) (failed : Option String) (s : Step)
    → (handled (note_one g failed s) ≡ suc (handled s)) × ((note_one g failed s).total ≡ s.total)
unfolding note_one
handled-note_one g none s = (omega arith, refl)
handled-note_one g (some reason) s =
    (omega (arith, length-append s.skipped ((g, reason) ∷ [])), refl)

CountsUp-append :
    (total n : ℕ) (ss : List Step) (s : Step)
    → CountsUp total n ss
    → handled s ≡ suc (n + length ss)
    → s.total ≡ total
    → CountsUp total n (ss ++ s ∷ [])
CountsUp-append total n [] s h k same = (omega arith, same, tt)
CountsUp-append total n (z ∷ ss) s h k same =
    (h.0, h.1, CountsUp-append total (suc n) ss s h.2 (omega arith) same)

module _ {W : Type 0} (add : List ℕ → W → W × Option String) where
  bring_into_counts :
      (gs : List (List ℕ)) (s : Step) (reports : List Step) (w : W)
      → handled s ≡ length reports
      → CountsUp s.total 0 reports
      → let (w', s', reports') = bring_into add gs s reports w in
        (handled s' ≡ handled s + length gs)
        × (length reports' ≡ length reports + length gs)
        × CountsUp s.total 0 reports'
  unfolding bring_into
  bring_into_counts [] s reports w h k = (omega arith, omega arith, k)
  bring_into_counts (g ∷ gs) s reports w h k =
      let (w', failed) = add g w in
      let s' = note_one g failed s in
      let (counted, same) = handled-note_one g failed s in
      let more = length-append reports (s' ∷ []) in
      let result = bring_into add gs s' (reports ++ s' ∷ []) w' in
      let (a, b, c) = bring_into_counts gs s' (reports ++ s' ∷ []) w' (omega arith) (
        subst (λ t. CountsUp t 0 (reports ++ s' ∷ [])) (sym same)
          (CountsUp-append s.total 0 reports s' k (omega arith) same)) in
      (omega arith, omega arith, subst (λ t. CountsUp t 0 result.2) same c)

  -- Every conversation is handled, whichever of them fail: in the end those done and those skipped
  -- are as many as were asked for, and the reports count up to that by one, each with that total.
  pub bring_into_all_counts :
      (gs : List (List ℕ)) (w : W)
      → let (w', s, reports) = bring_into_all add gs w in
        (handled s ≡ length gs) × (length reports ≡ length gs) × CountsUp (length gs) 0 reports
  unfolding bring_into_all
  bring_into_all_counts gs w =
      let start : Step = record { done = 0; total = length gs; skipped = [] } in
      let (a, b, c) = bring_into_counts gs start [] w refl tt in (omega arith, omega arith, c)
