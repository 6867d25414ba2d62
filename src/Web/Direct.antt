-- ===== src/Web/Direct.antt =====
-- The name of a conversation and the finding of the one with a person (web/src/lib/rozmowy.ts).
use mekamb_chat.Common.{
  ℕ, ◌≡◌, ◌≢◌, ◌⊎◌, inl, inr, refl, sym, subst, ◌∙◌, String, append_text, Bool, true, false, not,
  ◌&&◌, Option, none, some, List, [], ◌∷◌, filter, any, find, length, if◌then◌else◌, ◌==◌, text_eqb,
  text_eqb→eq, text_eqb→ne, text_eqb_refl, All, All-mono, All-filter, any-filter, Bool-cases, arith,
}
use mekamb_chat.Web.Messenger.Mailboxes.{unique}

-- `join(", ")`
unfoldable pub join_names : List String → String
join_names [] = ""
join_names (n ∷ []) = n
join_names (n ∷ m ∷ ns) = append_text n (append_text ", " (join_names (m ∷ ns)))

-- `nazwaRozmowy`
unfoldable pub conversation_name : List String → String → String
unfolding join_names unique
conversation_name members me = join_names (filter (λ u. not (text_eqb u me)) (unique members))

abbrev pub has : String → List String → Bool
has name names = any (λ n. text_eqb n name) names

-- The set of the members is that of the two.
abbrev pub is_pair : List String → String → String → Bool
is_pair set me peer = (length set == 2) && (has me set && has peer set)

-- A conversation whose members the core does not know is passed over.
abbrev pub is_direct : Option (List String) → String → String → Bool
is_direct none me peer = false
is_direct (some members) me peer = is_pair (unique members) me peer

-- `znajdzRozmowe1na1`, over the ids of the conversations.
unfoldable pub find_direct :
    (List ℕ → Option (List String)) → List (List ℕ) → String → String → Option (List ℕ)
find_direct members groups me peer =
    if text_eqb peer me then none else find (λ g. is_direct (members g) me peer) groups

pair_only :
    (set : List String) (me peer : String)
    → me ≢ peer
    → is_pair set me peer ≡ true
    → All (λ m. (m ≡ me) ⊎ (m ≡ peer)) set
pair_only [] me peer h k = absurd (ground arith)
pair_only (a ∷ []) me peer h k = absurd (ground arith)
pair_only (a ∷ b ∷ []) me peer h k = elim (Bool-cases (text_eqb a me)) [
  | inl e ↦
      let at : a ≡ me = text_eqb→eq a me e in
      (
        inl at,
        elim (Bool-cases (text_eqb b peer)) [
          | inl q ↦ (inr (text_eqb→eq b peer q), tt)
          | inr q ↦ absurd (h (sym at ∙ text_eqb→eq a peer (ground arith)))
        ],
      )
  | inr e ↦
      let at : b ≡ me = text_eqb→eq b me (ground arith) in
      elim (Bool-cases (text_eqb a peer)) [
        | inl q ↦ (inr (text_eqb→eq a peer q), (inl at, tt))
        | inr q ↦ absurd (h (sym at ∙ text_eqb→eq b peer (ground arith)))
      ]
]
pair_only (a ∷ b ∷ c ∷ set) me peer h k = absurd (ground arith)

module _ (P : String → Type 0) where
  All_unfilter :
      (x : String) (l : List String) → P x → All P (filter (λ y. not (text_eqb y x)) l) → All P l
  All_unfilter x [] px h = tt
  All_unfilter x (y ∷ l) px h = elim (Bool-cases (text_eqb y x)) [
    | inl e ↦ (subst P (sym (text_eqb→eq y x e)) px, All_unfilter x l px (rest_if e))
    | inr e ↦ let kept = kept_if e in (kept.0, All_unfilter x l px kept.1)
  ]
    where
      rest_if : text_eqb y x ≡ true → All P (filter (λ z. not (text_eqb z x)) l)
      rest_if e = rw e at h

      kept_if : text_eqb y x ≡ false → P y × All P (filter (λ z. not (text_eqb z x)) l)
      kept_if e = rw e at h

  All_ununique : (l : List String) → All P (unique l) → All P l
  unfolding unique
  All_ununique [] h = tt
  All_ununique (x ∷ l) h = (h.0, All_ununique l (All_unfilter x (unique l) h.0 h.1))

find_sound : {A : Type 0} (p : A → Bool) (l : List A) (x : A) → find p l ≡ some x → p x ≡ true
find_sound p [] x h = absurd (cc h)
find_sound p (y ∷ l) x h = elim (Bool-cases (p y)) [
  | inl e ↦ let same : y ≡ x = ground arith in subst (λ z. p z ≡ true) same e
  | inr e ↦ find_sound p l x (ground arith)
]

find-none : {A : Type 0} (p : A → Bool) (l : List A) → find p l ≡ none → All (λ x. p x ≡ false) l
find-none p [] h = tt
find-none p (y ∷ l) h = elim (Bool-cases (p y)) [
  | inl e ↦ absurd (ground arith)
  | inr e ↦ (e, find-none p l (ground arith))
]

-- Membership, by equality.
abbrev pub IsIn : {A : Type 0} → A → List A → Type 0
IsIn x [] = ⊥
IsIn x (y ∷ l) = (y ≡ x) ⊎ IsIn x l

find-IsIn : {A : Type 0} (p : A → Bool) (l : List A) (x : A) → find p l ≡ some x → IsIn x l
find-IsIn p [] x h = absurd (cc h)
find-IsIn p (y ∷ l) x h = elim (Bool-cases (p y)) [
  | inl e ↦ let same : y ≡ x = ground arith in inl same
  | inr e ↦ inr (find-IsIn p l x (ground arith))
]

-- Both people are members of a conversation that the core knows, and nobody else is.
abbrev pub IsOfTwo : Option (List String) → String → String → Type 0
IsOfTwo none me peer = ⊥
IsOfTwo (some members) me peer =
    IsIn me members × IsIn peer members × All (λ m. (m ≡ me) ⊎ (m ≡ peer)) members

-- What a search gives: a listed conversation of the two, or none, where no listed one is of the two.
abbrev pub Found :
    (List ℕ → Option (List String)) → List (List ℕ) → String → String → Option (List ℕ) → Type 0
Found members groups me peer (some g) = IsIn g groups × IsOfTwo (members g) me peer
Found members groups me peer none = All (λ g. ¬ IsOfTwo (members g) me peer) groups

has-IsIn : (x : String) (l : List String) → has x l ≡ true → IsIn x l
has-IsIn x [] h = absurd (cc h)
has-IsIn x (y ∷ l) h = elim (Bool-cases (text_eqb y x)) [
  | inl e ↦ inl (text_eqb→eq y x e)
  | inr e ↦ inr (has-IsIn x l (ground arith))
]

IsIn-has : (x : String) (l : List String) → IsIn x l → has x l ≡ true
IsIn-has x [] h = absurd h
IsIn-has x (y ∷ l) (inl same) = rw (same, text_eqb_refl x)
IsIn-has x (y ∷ l) (inr h) = let rest = IsIn-has x l h in ground arith

has-filter :
    (x y : String) (l : List String)
    → text_eqb y x ≡ false
    → has x (filter (λ z. not (text_eqb z y)) l) ≡ has x l
has-filter x y [] h = refl
has-filter x y (z ∷ l) h = elim (Bool-cases (text_eqb z y)) [
  | inl e ↦
      let apart : text_eqb z x ≡ false = rw (text_eqb→eq z y e) h in
      rw (e, apart) (has-filter x y l h)
  | inr e ↦ rw (e, has-filter x y l h)
]

has-unique : (x : String) (l : List String) → has x (unique l) ≡ has x l
unfolding unique
has-unique x [] = refl
has-unique x (y ∷ l) = elim (Bool-cases (text_eqb y x)) [
  | inl e ↦ rw e
  | inr e ↦ rw e (has-filter x y (unique l) e ∙ has-unique x l)
]

abbrev IsDistinct : List String → Type 0
IsDistinct [] = Unit
IsDistinct (x ∷ l) = (has x l ≡ false) × IsDistinct l

filter-IsDistinct : (p : String → Bool) (l : List String) → IsDistinct l → IsDistinct (filter p l)
filter-IsDistinct p [] h = tt
filter-IsDistinct p (x ∷ l) h = elim (Bool-cases (p x)) [
  | inl e ↦ rw e (any-filter (λ n. text_eqb n x) p l h.0, filter-IsDistinct p l h.1)
  | inr e ↦ rw e (filter-IsDistinct p l h.1)
]

filter-has : (x : String) (l : List String) → has x (filter (λ z. not (text_eqb z x)) l) ≡ false
filter-has x [] = refl
filter-has x (z ∷ l) = elim (Bool-cases (text_eqb z x)) [
  | inl e ↦ rw e (filter-has x l)
  | inr e ↦ ground (arith, filter-has x l)
]

unique-IsDistinct : (l : List String) → IsDistinct (unique l)
unfolding unique
unique-IsDistinct [] = tt
unique-IsDistinct (x ∷ l) =
    (filter-has x (unique l), filter-IsDistinct _ (unique l) (unique-IsDistinct l))

All-unique : (P : String → Type 0) (l : List String) → All P l → All P (unique l)
unfolding unique
All-unique P [] h = tt
All-unique P (x ∷ l) h = (h.0, All-filter P _ (unique l) (All-unique P l h.1))

abbrev IsEither : String → String → String → Type 0
IsEither me peer m = (m ≡ me) ⊎ (m ≡ peer)

-- Three texts of two cannot all differ.
no_third :
    (me peer a b c : String)
    → IsEither me peer a
    → IsEither me peer b
    → IsEither me peer c
    → a ≢ b
    → a ≢ c
    → b ≢ c
    → ⊥
no_third me peer a b c (inl x) (inl y) z h k l = h (x ∙ sym y)
no_third me peer a b c (inr x) (inr y) z h k l = h (x ∙ sym y)
no_third me peer a b c (inl x) (inr y) (inl z) h k l = k (x ∙ sym z)
no_third me peer a b c (inl x) (inr y) (inr z) h k l = l (y ∙ sym z)
no_third me peer a b c (inr x) (inl y) (inl z) h k l = l (y ∙ sym z)
no_third me peer a b c (inr x) (inl y) (inr z) h k l = k (x ∙ sym z)

length_two :
    (l : List String) (me peer : String)
    → me ≢ peer
    → IsDistinct l
    → IsIn me l
    → IsIn peer l
    → All (IsEither me peer) l
    → length l ≡ 2
length_two [] me peer h d x y all = absurd x
length_two (a ∷ []) me peer h d (inl x) (inl y) all = absurd (h (sym x ∙ y))
length_two (a ∷ []) me peer h d (inl x) (inr y) all = absurd y
length_two (a ∷ []) me peer h d (inr x) y all = absurd x
length_two (a ∷ b ∷ []) me peer h d x y all = refl
length_two (a ∷ b ∷ c ∷ l) me peer h d x y (s, (t, (u, rest))) =
    let ab : text_eqb b a ≡ false = ground arith in
    let ac : text_eqb c a ≡ false = ground arith in
    let bc : text_eqb c b ≡ false = ground arith in
    absurd (
      no_third me peer a b c s t u (λ e. text_eqb→ne b a ab (sym e))
        (λ e. text_eqb→ne c a ac (sym e)) (λ e. text_eqb→ne c b bc (sym e)))

-- The test of the code is that of the two people.
is_direct-IsOfTwo :
    (o : Option (List String)) (me peer : String)
    → me ≢ peer
    → is_direct o me peer ≡ true
    → IsOfTwo o me peer
is_direct-IsOfTwo none me peer h k = absurd (cc k)
is_direct-IsOfTwo (some ms) me peer h k =
    let mine : has me (unique ms) ≡ true = ground arith in
    let theirs : has peer (unique ms) ≡ true = ground arith in
    (
      has-IsIn me ms (sym (has-unique me ms) ∙ mine),
      has-IsIn peer ms (sym (has-unique peer ms) ∙ theirs),
      All_ununique (IsEither me peer) ms (pair_only (unique ms) me peer h k),
    )

IsOfTwo-is_direct :
    (o : Option (List String)) (me peer : String)
    → me ≢ peer
    → IsOfTwo o me peer
    → is_direct o me peer ≡ true
IsOfTwo-is_direct none me peer h k = absurd k
IsOfTwo-is_direct (some ms) me peer h (mine, theirs, all) =
    let m : has me (unique ms) ≡ true = has-unique me ms ∙ IsIn-has me ms mine in
    let q : has peer (unique ms) ≡ true = has-unique peer ms ∙ IsIn-has peer ms theirs in
    let two : length (unique ms) ≡ 2 =
      length_two (unique ms) me peer h (unique-IsDistinct ms) (has-IsIn me (unique ms) m)
        (has-IsIn peer (unique ms) q) (All-unique (IsEither me peer) ms all) in
    rw (m, q, two)

-- A private conversation is never mistaken for another: the one that is found with a person is
-- listed, both people are among its members, with any number of devices, and nobody else is; and
-- where none is found, no listed conversation that the core knows has just the two as members.
pub find_direct-Found :
    (members : List ℕ → Option (List String)) (groups : List (List ℕ)) (me peer : String)
    → me ≢ peer
    → Found members groups me peer (find_direct members groups me peer)
unfolding find_direct
find_direct-Found members groups me peer h = elim (Bool-cases (text_eqb peer me)) [
  | inl e ↦ absurd (h (sym (text_eqb→eq peer me e)))
  | inr e ↦ rw e (found (find (λ g. is_direct (members g) me peer) groups) refl)
]
  where
    found :
        (o : Option (List ℕ))
        → find (λ g. is_direct (members g) me peer) groups ≡ o
        → Found members groups me peer o
    found none e =
        All-mono _ _ groups
          (λ g not_direct two. cc (not_direct, IsOfTwo-is_direct (members g) me peer h two))
          (find-none (λ g. is_direct (members g) me peer) groups e)
    found (some g) e = (
      find-IsIn (λ g. is_direct (members g) me peer) groups g e,
      is_direct-IsOfTwo (members g) me peer h
          (find_sound (λ g. is_direct (members g) me peer) groups g e),
    )
