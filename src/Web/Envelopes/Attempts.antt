-- ===== src/Web/Envelopes/Attempts.antt =====
-- The attempts at one envelope among those at others (web/src/lib/koperty.ts).
use mekamb_chat.Common.{
  ◌+◌, ◌<◌, ◌≡◌, ◌≢◌, refl, String, false, none, some, List, [], ◌∷◌, leb, get_or_else,
  text_discrete, arith, All, Bool-cases, inl, inr,
}
use mekamb_chat.Common.Keyed.{get, get-set_self, get-set_ne, get-delete_self, get-delete_ne}
use mekamb_chat.Web.Envelopes.{
  Counter, retry, discard, after_failure, after_success, attempts_before_discard,
}

pub data Outcome : Type 0 where
  failure success : String → Outcome

abbrev pub envelope : Outcome → String
envelope (failure id) = id
envelope (success id) = id

unfoldable pub note : Outcome → Counter → Counter
note (failure id) counter = (after_failure counter id).0
note (success id) counter = after_success counter id

abbrev pub note_all : List Outcome → Counter → Counter
note_all [] counter = counter
note_all (o ∷ os) counter = note_all os (note o counter)

note_other :
    (id : String) (o : Outcome) (counter : Counter)
    → envelope o ≢ id
    → get text_discrete id (note o counter) ≡ get text_discrete id counter
unfolding note after_failure after_success
note_other id (failure j) counter h =
    let attempts = get_or_else (get text_discrete j counter) 0 + 1 in
    elim (Bool-cases (leb attempts_before_discard attempts)) [
      | inl e ↦ rw (e, note, after_failure) (get-delete_ne text_discrete j id counter h)
      | inr e ↦ rw (e, note, after_failure) (get-set_ne text_discrete j id attempts counter h)
    ]
note_other id (success j) counter h = get-delete_ne text_discrete j id counter h

note_others :
    (id : String) (os : List Outcome) (counter : Counter)
    → All (λ o. envelope o ≢ id) os
    → get text_discrete id (note_all os counter) ≡ get text_discrete id counter
note_others id [] counter h = refl
note_others id (o ∷ os) counter h =
    rw (note_others id os (note o counter) h.1) (note_other id o counter h.0)

-- One failure of an envelope that failed n times before, n < 3.
fails_again :
    (id : String) (counter : Counter)
    → get_or_else (get text_discrete id counter) 0 < 2
    → ((after_failure counter id).1 ≡ retry)
      × (get text_discrete id (after_failure counter id).0
          ≡ some (get_or_else (get text_discrete id counter) 0 + 1))
unfolding after_failure
fails_again id counter h =
    let n = get_or_else (get text_discrete id counter) 0 in
    let low : leb attempts_before_discard (n + 1) ≡ false = ground arith in
    rw low (refl, get-set_self text_discrete id (n + 1) counter)

fails_last :
    (id : String) (counter : Counter)
    → get text_discrete id counter ≡ some 2
    → ((after_failure counter id).1 ≡ discard)
      × (get text_discrete id (after_failure counter id).0 ≡ none)
unfolding after_failure
fails_last id counter h = rw h (refl, get-delete_self text_discrete id counter)

-- An envelope without failures so far is tried again after its first and its second failure and
-- given up at its third, and the counter keeps nothing of it then, whatever failures and successes
-- of other envelopes come between. A success before makes the counter forget it as well.
pub third_failure :
    (id : String) (counter : Counter) (xs ys : List Outcome)
    → get text_discrete id counter ≡ none
    → All (λ o. envelope o ≢ id) xs
    → All (λ o. envelope o ≢ id) ys
    → let first = after_failure counter id in
      let second = after_failure (note_all xs first.0) id in
      let third = after_failure (note_all ys second.0) id in
      (first.1 ≡ retry)
      × (second.1 ≡ retry)
      × (third.1 ≡ discard)
      × (get text_discrete id third.0 ≡ none)
      × (get text_discrete id (after_success second.0 id) ≡ none)
unfolding after_success
third_failure id counter xs ys h hx hy =
    let first = after_failure counter id in
    let (again, once) = fails_again id counter (rw h (omega arith)) in
    let one : get text_discrete id (note_all xs first.0) ≡ some 1 =
      rw (note_others id xs first.0 hx, once, h) refl in
    let second = after_failure (note_all xs first.0) id in
    let (again', twice) = fails_again id (note_all xs first.0) (rw one (omega arith)) in
    let two : get text_discrete id (note_all ys second.0) ≡ some 2 =
      rw (note_others id ys second.0 hy, twice, one) refl in
    let (given_up, gone) = fails_last id (note_all ys second.0) two in
    (again, again', given_up, gone, get-delete_self text_discrete id second.0)
