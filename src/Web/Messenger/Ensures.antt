-- ===== src/Web/Messenger/Ensures.antt =====
-- Rules for the steps of the messenger (web/src/lib/messenger.ts) and the state of the core that is
-- saved. A world is tidy where each envelope in its journal left with nothing unsaved; it is clean
-- where moreover nothing is unsaved now.
use mekamb_chat.Common.{ℕ, String, Option, none, some, List, [], ◌∷◌, ◌≡◌}
use mekamb_chat.Web.Messenger.{
  Step, changed, saved, posted, granted, confirmed, discarded, World, Outcome, done, thrown,
  or_throw, Act, continue, pure, raise, ◌>>=◌, rescue, catch, write, change, ask, request, persist,
}

-- Nothing changed since the last saving.
abbrev pub IsSaved : List Step → Type 0
IsSaved [] = Unit
IsSaved (changed ∷ l) = ⊥
IsSaved (saved ∷ l) = Unit
IsSaved (posted u e ∷ l) = IsSaved l
IsSaved (granted g n ∷ l) = IsSaved l
IsSaved (confirmed g ∷ l) = IsSaved l
IsSaved (discarded g ∷ l) = IsSaved l

-- The core was called once since the epoch was granted.
abbrev pub IsMerging : List ℕ → List Step → Type 0
IsMerging g (changed ∷ granted h n ∷ l) = h ≡ g
IsMerging g l = ⊥

-- Each envelope left with nothing unsaved, and each commit was merged straight after its epoch was
-- granted, in one call of the core.
abbrev pub IsTidy : List Step → Type 0
IsTidy [] = Unit
IsTidy (changed ∷ l) = IsTidy l
IsTidy (saved ∷ l) = IsTidy l
IsTidy (posted u e ∷ l) = IsSaved l × IsTidy l
IsTidy (granted g n ∷ l) = IsTidy l
IsTidy (confirmed g ∷ l) = IsMerging g l × IsTidy l
IsTidy (discarded g ∷ l) = IsTidy l

abbrev pub IsClean : List Step → Type 0
IsClean l = IsSaved l × IsTidy l

-- The epoch was granted in the last step.
abbrev pub IsReady : List ℕ → List Step → Type 0
IsReady g (granted h n ∷ l) = (h ≡ g) × IsTidy l
IsReady g l = ⊥

abbrev pub Merges : List ℕ → List Step → Type 0
Merges g l = IsMerging g l × IsTidy l

module _ {C N A : Type 0} where
  abbrev pub After : (List Step → Type 0) → Outcome A → World C N → Type 0
  After Q (done a) w = Q w.journal
  After Q (thrown e) w = IsTidy w.journal

  -- From a journal with `P`, the action leaves one with `Q`, or throws and leaves a tidy one.
  pub record Ensures (P : List Step → Type 0) (m : Act C N A) (Q : List Step → Type 0)
      : Type 0 where
    pub at : (w : World C N) → P w.journal → After Q (m w).0 (m w).1

module _ {C N : Type 0} where
  module _ {A : Type 0} (Q : List Step → Type 0) where
    or_throw-After :
        (o : Option A) (w : World C N) → Q w.journal → IsTidy w.journal → After Q (or_throw o) w
    or_throw-After none w q t = t
    or_throw-After (some a) w q t = q

  module _ {A : Type 0} {P Q : List Step → Type 0} where
    pub Ensures-pure :
        (a : A) → ((l : List Step) → P l → Q l) → Ensures P (pure {C = C} {N = N} a) Q
    unfolding pure
    Ensures-pure a h = record { at = λ w p. h w.journal p }

    pub Ensures-raise :
        (e : String)
        → ((l : List Step) → P l → IsTidy l)
        → Ensures P (raise {C = C} {N = N} {A = A} e) Q
    unfolding raise
    Ensures-raise e h = record { at = λ w p. h w.journal p }

    pub Ensures-ask :
        (f : C → Option A)
        → ((l : List Step) → P l → Q l)
        → ((l : List Step) → P l → IsTidy l)
        → Ensures P (ask {C = C} {N = N} f) Q
    unfolding ask
    Ensures-ask f h k = record {
      at = λ w p. or_throw-After Q (f w.client) w (h w.journal p) (k w.journal p);
    }

    pub Ensures-request :
        (f : N → N × A) → ((l : List Step) → P l → Q l) → Ensures P (request {C = C} f) Q
    unfolding request
    Ensures-request f h = record { at = λ w p. h w.journal p }

    pub Ensures-change :
        (f : C → C × Option A)
        → ((l : List Step) → P l → Q (changed ∷ l) × IsTidy l)
        → Ensures P (change {C = C} {N = N} f) Q
    unfolding change
    Ensures-change f h = record {
      at = λ w p.
          let (c, r) = f w.client in
          or_throw-After Q r (record w { client = c; journal = changed ∷ w.journal })
            (h w.journal p).0 (h w.journal p).1;
    }

  module _ {P Q : List Step → Type 0} where
    pub Ensures-write :
        (s : Step) → ((l : List Step) → P l → Q (s ∷ l)) → Ensures P (write {C = C} {N = N} s) Q
    unfolding write
    Ensures-write s h = record { at = λ w p. h w.journal p }

  pub Ensures-persist : Ensures IsTidy (persist {C = C} {N = N}) IsClean
  unfolding persist
  Ensures-persist = record { at = λ w p. (tt, p) }

  module _ {A B : Type 0} {Q R : List Step → Type 0} where
    continue-After :
        (r : Outcome A) (f : A → Act C N B) (w : World C N)
        → After Q r w
        → ((a : A) → Ensures Q (f a) R)
        → After R (continue r f w).0 (continue r f w).1
    continue-After (done a) f w h k = (k a).at w h
    continue-After (thrown e) f w h k = h

  module _ {A B : Type 0} {P Q R : List Step → Type 0} where
    pub Ensures-bind :
        (m : Act C N A) (f : A → Act C N B)
        → Ensures P m Q
        → ((a : A) → Ensures Q (f a) R)
        → Ensures P (m >>= f) R
    unfolding ◌>>=◌
    Ensures-bind m f h k = record { at = λ w p. continue-After (m w).0 f (m w).1 (h.at w p) k }

  module _ {A : Type 0} {Q : List Step → Type 0} where
    rescue-After :
        (r : Outcome A) (f : String → Act C N A) (w : World C N)
        → After Q r w
        → ((e : String) → Ensures IsTidy (f e) Q)
        → After Q (rescue r f w).0 (rescue r f w).1
    rescue-After (done a) f w h k = h
    rescue-After (thrown e) f w h k = (k e).at w h

    weaken-After :
        {Q' : List Step → Type 0} (r : Outcome A) (w : World C N)
        → ((l : List Step) → Q l → Q' l)
        → After Q r w
        → After Q' r w
    weaken-After (done a) w k q = k w.journal q
    weaken-After (thrown e) w k q = q

  module _ {A : Type 0} {P Q : List Step → Type 0} where
    pub Ensures-catch :
        (m : Act C N A) (f : String → Act C N A)
        → Ensures P m Q
        → ((e : String) → Ensures IsTidy (f e) Q)
        → Ensures P (catch m f) Q
    unfolding catch
    Ensures-catch m f h k = record { at = λ w p. rescue-After (m w).0 f (m w).1 (h.at w p) k }

    pub Ensures-weaken :
        {m : Act C N A} {P' Q' : List Step → Type 0}
        → ((l : List Step) → P' l → P l)
        → ((l : List Step) → Q l → Q' l)
        → Ensures P m Q
        → Ensures P' m Q'
    Ensures-weaken {m} h k e = record {
      at = λ w p. weaken-After (m w).0 (m w).1 k (e.at w (h w.journal p));
    }
